-- ===== src/Base/Text/Fields.antt =====
-- Fields between separators, for texts whose fields do not contain the separator.
use Prim.Native.Nat.{ℕ}
use mathlib.Core.Path.{◌≡◌, refl}
use mathlib.Core.Bool.{false}
use mathlib.Core.List.{[], ◌∷◌, ◌++◌}
use native.Mathlib.Omega.{arith}
use aggregator_demo.Base.Tests.{nat_eq}
use aggregator_demo.Base.Lists.{contains}
use aggregator_demo.Base.Text.{Text, starts_with, has_infix, split}

-- A byte that is absent is the separator nowhere.
pub split-absent : (sep : ℕ) (s : Text) → contains s sep ≡ false → split sep s ≡ s ∷ []
unfolding split
split-absent sep [] h = refl
split-absent sep (a ∷ s) h = ground (arith, split-absent sep s)

-- The first field ends at the first separator.
pub split-field :
    (sep : ℕ) (s t : Text) → contains s sep ≡ false → split sep (s ++ sep ∷ t) ≡ s ∷ split sep t
unfolding split
split-field sep [] t h = ground arith
split-field sep (a ∷ s) t h = ground (arith, split-field sep s t)

-- A text that begins with a byte that is absent is no part.
pub has_infix-absent :
    (a : ℕ) (prefix s : Text) → contains s a ≡ false → has_infix s (a ∷ prefix) ≡ false
unfolding has_infix starts_with
has_infix-absent a prefix [] h = refl
has_infix-absent a prefix (b ∷ s) h = ground (arith, has_infix-absent a prefix s)
