-- ===== src/Subnetrange/Networks.antt =====
-- Which networks the ranger holds.
use mathlib.Core.List.{foldl}
use aggregator_demo.Base.{
  ◌≡◌, refl, Option, none, some, List, [], ◌∷◌, ◌==◌, text_eq, Bool-cases, inl, inr, select, map,
  not,
}
use aggregator_demo.Base.Text.{Text, split}
use aggregator_demo.Entity.{Error, Result, ok, err}
use aggregator_demo.Subnetrange.{
  trim_space, after_parse, after_insert, insert_lines, create_disabled_subnet_range,
}

-- The lines that are not blank, without the white space around them.
abbrev pub items : List Text → List Text
items lines = select (λ item. not (item == [])) (map trim_space lines)

module _ {Network : Type 0} (parse_cidr : Text → Result Network) where
  unfoldable pub cons_network : Network → Result (List Network) → Result (List Network)
  cons_network network (ok ns) = ok (network ∷ ns)
  cons_network network (err e) = err e

  unfoldable pub parsed_cons : Result Network → Result (List Network) → Result (List Network)
  unfolding cons_network
  parsed_cons (ok network) rest = cons_network network rest
  parsed_cons (err e) rest = err e

  -- All networks of the items, or the error of the first item that is none.
  unfoldable pub networks : List Text → Result (List Network)
  unfolding parsed_cons
  networks [] = ok []
  networks (item ∷ more) = parsed_cons (parse_cidr item) (networks more)

  module _ {Ranger : Type 0} (insert : Network → Ranger → Ranger × Option Error)
      (add : Ranger → Network → Ranger)
      (inserts : (network : Network) (r : Ranger) → insert network r ≡ (add r network, none)) where
    -- The ranger has the networks added in their order; or the error is that one.
    abbrev pub IsFilled : Ranger → Ranger × Option Error → Result (List Network) → Type 0
    IsFilled r (r', o) (ok ns) = (r' ≡ foldl add r ns) × (o ≡ none)
    IsFilled r (r', o) (err e) = o ≡ some e

    IsFilled-cons :
        (network : Network) (r : Ranger) (q : Ranger × Option Error) (ns : Result (List Network))
        → IsFilled (add r network) q ns
        → IsFilled r q (cons_network network ns)
    unfolding cons_network
    IsFilled-cons network r q (ok ns) h = h
    IsFilled-cons network r q (err e) h = h

    after_parse-IsFilled :
        (more : Ranger → Ranger × Option Error) (r : Ranger) (x : Result Network)
        (ns : Result (List Network))
        → ((r : Ranger) → IsFilled r (more r) ns)
        → IsFilled r (after_parse parse_cidr insert more r x) (parsed_cons x ns)
    unfolding after_parse after_insert parsed_cons
    after_parse-IsFilled more r (err e) ns k = refl
    after_parse-IsFilled more r (ok network) ns k =
        rw (inserts network r)
          (IsFilled-cons network r (more (add r network)) ns (k (add r network)))

    insert_lines-IsFilled :
        (lines : List Text) (r : Ranger)
        → IsFilled r (insert_lines parse_cidr insert lines r) (networks (items lines))
    unfolding insert_lines networks
    insert_lines-IsFilled [] r = (refl, refl)
    insert_lines-IsFilled (line ∷ lines) r = elim (Bool-cases (trim_space line == [])) [
      | inl e ↦ rw e (insert_lines-IsFilled lines r)
      | inr e ↦ rw e (
          after_parse-IsFilled (insert_lines parse_cidr insert lines) r
            (parse_cidr (trim_space line)) (networks (items lines)) (insert_lines-IsFilled lines))
    ]

    -- The file that was read.
    abbrev pub IsCreated : Ranger → Option Ranger × Option Error → Result (List Network) → Type 0
    IsCreated new_ranger (none, o) ns = ⊥
    IsCreated new_ranger (some r, o) ns = IsFilled new_ranger (r, o) ns

    -- From a file that can be read, the ranger is the new one with exactly the networks of the
    -- lines that are not blank, in their order, and there is no error; or, if one of those lines
    -- is no network, the error is that of the first such line. White space around a line does not
    -- matter. Inserting a network into the ranger is taken not to fail.
    pub create_disabled_subnet_range-IsCreated :
        (new_ranger : Ranger) (output : Text)
        → IsCreated new_ranger
            (create_disabled_subnet_range parse_cidr insert new_ranger (ok output))
            (networks (items (split b'\n' output)))
    unfolding create_disabled_subnet_range
    create_disabled_subnet_range-IsCreated new_ranger output =
        insert_lines-IsFilled (split b'\n' output) new_ranger
