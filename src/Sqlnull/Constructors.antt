-- ===== src/Sqlnull/Constructors.antt =====
-- The constructors of src/tools/sqlnull: a NULL value into which the argument is scanned. `any` makes
-- the argument a value of the driver.
use aggregator_demo.Base.{◌≡◌, refl, ap, Bool, false, Option, none, some, []}
use aggregator_demo.Base.Word.{Int64}
use aggregator_demo.Base.Text.{Text}
use aggregator_demo.Entity.{Error}
use aggregator_demo.Sqlnull.{
  Null, scan_int64, scan_parsed, scan_string, scan_float64, scan_time, set_scanned, get_int,
  optional_result, value_time, value_of,
}

module _ {V : Type 0} (is_nil : V → Bool) where
  unfoldable pub new_int64 :
      {F : Type 0}
      → (V → Int64 × Option Error)
      → (V → F × Option Error)
      → (Int64 → Int64 × Option Error)
      → (F → Int64)
      → (Int64 → V)
      → Int64
      → Null Int64
  unfolding scan_int64
  new_int64 scan_i scan_f scan_int cut any i =
      (scan_int64 scan_i scan_f scan_int cut is_nil (any i) (record { value = 0; valid = false })).0

  unfoldable pub new_string : (V → Text × Option Error) → (Text → V) → Text → Null Text
  unfolding scan_string
  new_string scan any s = (scan_string scan is_nil (any s) (record { value = []; valid = false })).0

  unfoldable pub new_float64 : {F : Type 0} → (V → F × Option Error) → F → (F → V) → F → Null F
  unfolding scan_float64
  new_float64 scan zero any f =
      (scan_float64 scan is_nil (any f) (record { value = zero; valid = false })).0

  -- An int that the driver reads back is the value of what `NewInt64` makes of it.
  pub get_int-new_int64 :
      {F : Type 0} (scan_i : V → Int64 × Option Error) (scan_f : V → F × Option Error)
      (scan_int : Int64 → Int64 × Option Error) (cut : F → Int64) (any : Int64 → V) (i : Int64)
      → scan_i (any i) ≡ (i, none)
      → is_nil (any i) ≡ false
      → get_int (new_int64 scan_i scan_f scan_int cut any i) ≡ i
  unfolding new_int64 scan_int64 scan_parsed set_scanned get_int
  get_int-new_int64 scan_i scan_f scan_int cut any i h k =
      rw (new_int64, scan_int64, h, scan_parsed, set_scanned, k) (ap (λ x. x.0) h)

  pub optional_result-new_string :
      (scan : V → Text × Option Error) (any : Text → V) (s : Text)
      → scan (any s) ≡ (s, none)
      → is_nil (any s) ≡ false
      → optional_result (new_string scan any s) ≡ s
  unfolding new_string scan_string set_scanned optional_result
  optional_result-new_string scan any s h k =
      rw (new_string, scan_string, h, set_scanned, k) (ap (λ x. x.0) h)

unfoldable pub new_null_time : {T : Type 0} → T → T → Null T
unfolding scan_time
new_null_time zero d = (scan_time zero (some d) (record { value = zero; valid = false })).0

pub value_time-new_null_time :
    {T : Type 0} (zero d : T) → value_time (new_null_time zero d) ≡ some d
unfolding value_time value_of new_null_time scan_time
value_time-new_null_time zero d = refl
