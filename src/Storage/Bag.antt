-- ===== src/Storage/Bag.antt =====
-- The lines of a directory do not depend on where an entry stands.
use mathlib.Core.Path.{subst}
use mathlib.Core.List.{Perm, perm_append_comm, append_assoc}
use mathlib.Core.List.Perm
use aggregator_demo.Base.{
  ◌≡◌, ◌≢◌, refl, Bool, true, false, none, some, List, [], ◌∷◌, ◌++◌, arith, text_eq, Bool-cases,
  inl, inr,
}
use aggregator_demo.Base.Text.{Text}
use aggregator_demo.Base.Map.{Map, lookup, erase, NodupKeys}
use aggregator_demo.Storage.{Node, Dir, place, entry_of, text_ltb}
use aggregator_demo.Storage.Lines.{entry_lines, fresh_lines}

pub perm_swap {ℓ} : {A : Type ℓ} (xs ys zs : List A) → Perm (xs ++ (ys ++ zs)) (ys ++ (xs ++ zs))
perm_swap xs ys zs =
    rw (← append_assoc xs ys zs, ← append_assoc ys xs zs)
      (Perm.append_right zs (perm_append_comm xs ys))

lookup-cons-none :
    (name j : Text) (w : Node) (d : Dir)
    → lookup name ((j, w) ∷ d) ≡ none
    → (name ≢ j) × (lookup name d ≡ none)
unfolding lookup
lookup-cons-none name j w d h = ground arith

place-before :
    (name j : Text) (node w : Node) (d : Dir)
    → name ≢ j
    → text_ltb name j ≡ true
    → place name node ((j, w) ∷ d) ≡ (name, node) ∷ (j, w) ∷ d
unfolding place
place-before name j node w d p h = ground arith

place-behind :
    (name j : Text) (node w : Node) (d : Dir)
    → name ≢ j
    → text_ltb name j ≡ false
    → place name node ((j, w) ∷ d) ≡ (j, w) ∷ place name node d
unfolding place
place-behind name j node w d p h = ground arith

erase-absent : (name : Text) (d : Dir) → lookup name d ≡ none → erase name d ≡ d
unfolding lookup erase
erase-absent name [] h = refl
erase-absent name ((j, w) ∷ d) h = ground (arith, erase-absent name d)

erase-here :
    (name j : Text) (w : Node) (d : Dir)
    → name ≡ j
    → lookup j d ≡ none
    → erase name ((j, w) ∷ d) ≡ d
unfolding erase
erase-here name j w d p h = ground (arith, erase-absent name d)

erase-behind :
    (name j : Text) (w : Node) (d : Dir)
    → name ≢ j
    → erase name ((j, w) ∷ d) ≡ (j, w) ∷ erase name d
unfolding erase
erase-behind name j w d p = ground arith

module _ (skip : Map Text Bool) where
  abbrev pub lines_at : Text → Node → List Text
  lines_at name node = entry_lines (entry_of skip name node)

  cons-perm :
      (name : Text) (node : Node) (j : Text) (w : Node) (d d' : Dir)
      → Perm (fresh_lines skip d') (lines_at name node ++ fresh_lines skip d)
      → Perm (fresh_lines skip ((j, w) ∷ d')) (lines_at name node ++ fresh_lines skip ((j, w) ∷ d))
  unfolding fresh_lines
  cons-perm name node j w d d' h =
      Perm.trans (Perm.append_left (lines_at j w) h)
        (perm_swap (lines_at j w) (lines_at name node) (fresh_lines skip d))

  pub fresh_lines-place :
      (name : Text) (node : Node) (d : Dir)
      → lookup name d ≡ none
      → Perm (fresh_lines skip (place name node d)) (lines_at name node ++ fresh_lines skip d)
  unfolding fresh_lines place
  fresh_lines-place name node [] h = Perm.refl _
  fresh_lines-place name node ((j, w) ∷ d) h =
      let (ne, out) = lookup-cons-none name j w d h in
      elim (Bool-cases (text_ltb name j)) [
        | inl before ↦ rw (place-before name j node w d ne before) (Perm.refl _)
        | inr behind ↦
            rw (place-behind name j node w d ne behind)
              (cons-perm name node j w d (place name node d) (fresh_lines-place name node d out))
      ]

  pub fresh_lines-erase :
      (name : Text) (node : Node) (d : Dir)
      → NodupKeys d
      → lookup name d ≡ some node
      → Perm (lines_at name node ++ fresh_lines skip (erase name d)) (fresh_lines skip d)
  unfolding fresh_lines lookup
  fresh_lines-erase name node [] u h = absurd (cc h)
  fresh_lines-erase name node ((j, w) ∷ d) u h = elim (text_eq.dec name j) [
    | yes p ↦
        let same : node ≡ w = ground arith in
        let lines : lines_at name node ≡ lines_at j w = cc (p, same) in
        rw (erase-here name j w d p u.0) (
          subst (λ x. Perm (lines_at name node ++ fresh_lines skip d) (x ++ fresh_lines skip d))
            lines (Perm.refl _))
    | no p ↦ rw (erase-behind name j w d p) (
        Perm.symm (
          cons-perm name node j w (erase name d) d
            (Perm.symm (fresh_lines-erase name node d u.1 (ground arith)))))
  ]
