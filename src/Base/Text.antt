-- ===== src/Base/Text.antt =====
-- Go strings as sequences of bytes, with the functions of package strings that the program calls.
pub mod Fields
use Prim.Native.Nat.{ℕ}
use Prim.Native.Char.{code}
use Prim.Native.String.{String}
use mathlib.Core.Bool.{Bool, true, false, ◌&&◌, ◌||◌}
use mathlib.Core.List.{List, [], ◌∷◌}
use aggregator_demo.Base.Tests.{◌==◌, nat_eq, if◌then◌else◌}

abbrev pub Text : Type 0
Text = List ℕ

-- The bytes of an ASCII literal.
abbrev pub codes : String → Text
codes String.[] = []
codes (String.◌∷◌ c s) = code c ∷ codes s

unfoldable pub starts_with : Text → Text → Bool
starts_with s [] = true
starts_with [] (b ∷ prefix) = false
starts_with (a ∷ s) (b ∷ prefix) = a == b && starts_with s prefix

-- `strings.Contains(s, sub)`
unfoldable pub has_infix : Text → Text → Bool
unfolding starts_with
has_infix [] sub = starts_with [] sub
has_infix (a ∷ s) sub = starts_with (a ∷ s) sub || has_infix s sub

prepend : ℕ → List Text → List Text
prepend a [] = (a ∷ []) ∷ []
prepend a (piece ∷ pieces) = (a ∷ piece) ∷ pieces

-- `strings.Split(s, sep)` for a separator of one byte: always at least one piece.
unfoldable pub split : ℕ → Text → List Text
unfolding prepend
split sep [] = [] ∷ []
split sep (a ∷ s) = let rest = split sep s in if a == sep then [] ∷ rest else prepend a rest
