-- ===== src/Subnetrange.antt =====
-- src/tools/subnetrange: the file of internal subnets. `net.ParseCIDR` and the trie of cidranger are
-- arguments: a network, a ranger and what the calls on them give.
pub mod Networks
use aggregator_demo.Base.{
  ℕ, zero, suc, ◌-◌, length, map, Bool, true, false, ◌||◌, ◌&&◌, Option, none, some, List, [], ◌∷◌,
  ◌==◌, nat_eq, text_eq, if◌then◌else◌,
}
use aggregator_demo.Base.Text.{Text, split, starts_with}
use aggregator_demo.Entity.{Error, Result, ok, err}

-- White space of ASCII.
abbrev pub is_space : ℕ → Bool
is_space c = c == b' ' || c == b'\t' || c == b'\n' || c == 11 || c == 12 || c == b'\r'

-- The other characters of `unicode.IsSpace`, in UTF-8.
abbrev pub wide_spaces : List Text
wide_spaces =
    (194 ∷ 133 ∷ [])
    ∷ (194 ∷ 160 ∷ [])
    ∷ (225 ∷ 154 ∷ 128 ∷ [])
    ∷ (226 ∷ 128 ∷ 128 ∷ [])
    ∷ (226 ∷ 128 ∷ 129 ∷ [])
    ∷ (226 ∷ 128 ∷ 130 ∷ [])
    ∷ (226 ∷ 128 ∷ 131 ∷ [])
    ∷ (226 ∷ 128 ∷ 132 ∷ [])
    ∷ (226 ∷ 128 ∷ 133 ∷ [])
    ∷ (226 ∷ 128 ∷ 134 ∷ [])
    ∷ (226 ∷ 128 ∷ 135 ∷ [])
    ∷ (226 ∷ 128 ∷ 136 ∷ [])
    ∷ (226 ∷ 128 ∷ 137 ∷ [])
    ∷ (226 ∷ 128 ∷ 138 ∷ [])
    ∷ (226 ∷ 128 ∷ 168 ∷ [])
    ∷ (226 ∷ 128 ∷ 169 ∷ [])
    ∷ (226 ∷ 128 ∷ 175 ∷ [])
    ∷ (226 ∷ 129 ∷ 159 ∷ [])
    ∷ (227 ∷ 128 ∷ 128 ∷ [])
    ∷ []

-- How many bytes the first character has if it is one of these, and otherwise zero.
unfoldable pub wide_width : List Text → Text → ℕ
unfolding starts_with
wide_width [] s = 0
wide_width (space ∷ spaces) s = if starts_with s space then length space else wide_width spaces s

unfoldable pub space_width : List Text → Text → ℕ
unfolding wide_width
space_width wide [] = 0
space_width wide (c ∷ s) = if is_space c then 1 else wide_width wide (c ∷ s)

-- Passes over some bytes, and then over white space.
unfoldable pub trim_from : List Text → Text → ℕ → Text
unfolding space_width
trim_from wide [] k = []
trim_from wide (c ∷ s) (suc k) = trim_from wide s k
trim_from wide (c ∷ s) zero =
    let width = space_width wide (c ∷ s) in
    let rest = trim_from wide s (width - 1) in if width == 0 then c ∷ s else rest

unfoldable pub reversed : Text → Text → Text
reversed [] acc = acc
reversed (c ∷ s) acc = reversed s (c ∷ acc)

-- `strings.TrimSpace`: at the end the bytes of a space come in the other order.
unfoldable pub trim_space : Text → Text
unfolding trim_from reversed
trim_space s =
    let back = map (λ space. reversed space []) wide_spaces in
    reversed (trim_from back (reversed (trim_from wide_spaces s 0) []) 0) []

module _ {ℓ κ} {Network : Type ℓ} {Ranger : Type κ} (parse_cidr : Text → Result Network)
    (insert : Network → Ranger → Ranger × Option Error) where
  unfoldable pub after_insert :
      (Ranger → Ranger × Option Error) → Ranger × Option Error → Ranger × Option Error
  after_insert more (r, some e) = (r, some e)
  after_insert more (r, none) = more r

  unfoldable pub after_parse :
      (Ranger → Ranger × Option Error) → Ranger → Result Network → Ranger × Option Error
  unfolding after_insert
  after_parse more r (err e) = (r, some e)
  after_parse more r (ok network) = after_insert more (insert network r)

  -- The loop over the lines; an empty line is passed over.
  unfoldable pub insert_lines : List Text → Ranger → Ranger × Option Error
  unfolding after_parse trim_space
  insert_lines [] r = (r, none)
  insert_lines (line ∷ lines) r =
      let item = trim_space line in
      let more = insert_lines lines r in
      if item == [] then more else after_parse (insert_lines lines) r (parse_cidr item)

  -- `CreateDisabledSubnetRange`, over what `os.ReadFile` gives; the ranger is nil if it fails.
  unfoldable pub create_disabled_subnet_range : Ranger → Result Text → Option Ranger × Option Error
  unfolding insert_lines
  create_disabled_subnet_range new_ranger (err e) = (none, some e)
  create_disabled_subnet_range new_ranger (ok output) =
      let r = insert_lines (split b'\n' output) new_ranger in (some r.0, r.1)
