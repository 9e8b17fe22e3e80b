-- ===== src/Storage/Sorted.antt =====
-- A directory lists its entries in the order of their names, none of them twice.
use aggregator_demo.Base.{◌≡◌, ◌≢◌, refl, true, false, none, [], ◌∷◌, arith, nat_eq, text_eq}
use aggregator_demo.Base.Text.{Text}
use aggregator_demo.Base.Map.{lookup, erase, NodupKeys}
use aggregator_demo.Storage.{Node, Dir, place, text_ltb}

text_ltb_irrefl : (a : Text) → text_ltb a a ≡ false
text_ltb_irrefl [] = refl
text_ltb_irrefl (x ∷ a) = ground (arith, text_ltb_irrefl a)

text_ltb_trans : (a b c : Text) → text_ltb a b ≡ true → text_ltb b c ≡ true → text_ltb a c ≡ true
text_ltb_trans [] [] [] h k = h
text_ltb_trans [] (y ∷ b) [] h k = absurd (cc k)
text_ltb_trans [] b (z ∷ c) h k = refl
text_ltb_trans (x ∷ a) [] c h k = absurd (cc h)
text_ltb_trans (x ∷ a) (y ∷ b) [] h k = absurd (cc k)
text_ltb_trans (x ∷ a) (y ∷ b) (z ∷ c) h k = ground (arith, text_ltb_trans a b c)

text_ltb_total : (a b : Text) → a ≢ b → text_ltb a b ≡ false → text_ltb b a ≡ true
text_ltb_total [] [] p h = absurd (p refl)
text_ltb_total [] (y ∷ b) p h = absurd (cc h)
text_ltb_total (x ∷ a) [] p h = refl
text_ltb_total (x ∷ a) (y ∷ b) p h = elim (nat_eq.dec x y) [
  | yes e ↦ let rest = text_ltb_total a b (λ q. p (λ i. e i ∷ q i)) (ground arith) in ground arith
  | no e ↦ ground arith
]

-- Each name is behind this one.
abbrev IsBelow : Text → Dir → Type 0
IsBelow k [] = Unit
IsBelow k ((j, w) ∷ d) = (text_ltb k j ≡ true) × IsBelow k d

abbrev pub IsSorted : Dir → Type 0
IsSorted [] = Unit
IsSorted ((k, v) ∷ d) = IsBelow k d × IsSorted d

IsBelow-trans : (i k : Text) (d : Dir) → text_ltb i k ≡ true → IsBelow k d → IsBelow i d
IsBelow-trans i k [] h b = tt
IsBelow-trans i k ((j, w) ∷ d) h b = (text_ltb_trans i k j h b.0, IsBelow-trans i k d h b.1)

IsBelow-erase : (i k : Text) (d : Dir) → IsBelow i d → IsBelow i (erase k d)
unfolding erase
IsBelow-erase i k [] b = tt
IsBelow-erase i k ((j, w) ∷ d) b = ground (arith, IsBelow-erase i k d b.1)

IsBelow-place :
    (i k : Text) (v : Node) (d : Dir) → text_ltb i k ≡ true → IsBelow i d → IsBelow i (place k v d)
unfolding place
IsBelow-place i k v [] h b = (h, tt)
IsBelow-place i k v ((j, w) ∷ d) h b = ground (arith, IsBelow-place i k v d h b.1)

IsBelow-absent : (k : Text) (d : Dir) → IsBelow k d → lookup k d ≡ none
unfolding lookup
IsBelow-absent k [] b = refl
IsBelow-absent k ((j, w) ∷ d) b = ground (arith, IsBelow-absent k d b.1, text_ltb_irrefl k)

pub IsSorted-NodupKeys : (d : Dir) → IsSorted d → NodupKeys d
IsSorted-NodupKeys [] s = tt
IsSorted-NodupKeys ((k, v) ∷ d) s = (IsBelow-absent k d s.0, IsSorted-NodupKeys d s.1)

pub IsSorted-erase : (k : Text) (d : Dir) → IsSorted d → IsSorted (erase k d)
unfolding erase
IsSorted-erase k [] s = tt
IsSorted-erase k ((j, w) ∷ d) s = ground (arith, IsSorted-erase k d s.1, IsBelow-erase j k d s.0)

pub IsSorted-place : (k : Text) (v : Node) (d : Dir) → IsSorted d → IsSorted (place k v d)
unfolding place
IsSorted-place k v [] s = (tt, tt)
IsSorted-place k v ((j, w) ∷ d) s = ground (
  arith,
  IsSorted-place k v d s.1,
  text_ltb_total k j,
  IsBelow-place j k v d,
  IsBelow-trans k j d,
)
