-- ===== src/Sqlnull.antt =====
-- src/tools/sqlnull: values that may be NULL, read from and written to the database and JSON. The
-- conversions of database/sql, encoding/json and time are arguments, and so are the types of a
-- driver's value, of floats and of times.
pub mod Laws
pub mod Constructors
use aggregator_demo.Base.{
  ℕ, Bool, true, false, not, Option, none, some, List, [], ◌∷◌, ◌==◌, text_eq, if◌then◌else◌,
}
use aggregator_demo.Base.Word.{Int64}
use aggregator_demo.Base.Text.{Text, codes}
use aggregator_demo.Entity.{Error, Result, ok, err}

-- `NullInt64`, `NullBool`, `NullFloat64`, `NullString`, `NullTime`
pub record Null {ℓ} (A : Type ℓ) : Type ℓ where
  pub value : A
  pub valid : Bool

abbrev pub null_json_value : Text
null_json_value = codes "null"

unfoldable pub is_ok : Option Error → Bool
is_ok none = true
is_ok (some e) = false

-- What the methods of the five types share, in terms of what the libraries answer.
module _ {ℓ} {A : Type ℓ} where
  -- `Scan`, by whether the value is nil and what `Scan` of database/sql leaves.
  unfoldable pub set_scanned : Null A → Bool → A × Option Error → Null A × Option Error
  set_scanned n is_nil (a, some e) = (n, some e)
  set_scanned n is_nil (a, none) = (record { value = a; valid = not is_nil }, none)

  -- `Value`: nil, or the value.
  unfoldable pub value_of : Null A → Option A
  value_of n = if n.valid then some n.value else none

  unfoldable pub marshalled : (A → Result Text) → Null A → Result Text
  marshalled encode n = if n.valid then encode n.value else ok null_json_value

  -- `UnmarshalJSON`, by what `json.Unmarshal` leaves in the field.
  unfoldable pub set_decoded : A × Option Error → Null A × Option Error
  unfolding is_ok
  set_decoded (a, e) = (record { value = a; valid = is_ok e }, e)

  unfoldable pub unmarshalled :
      (A → Text → A × Option Error) → Null A → Text → Null A × Option Error
  unfolding set_decoded
  unmarshalled decode n b =
      if b == null_json_value then (n, none) else set_decoded (decode n.value b)

-- `NullTime`
unfoldable pub scan_time : {T : Type 0} → T → Option T → Null T → Null T × Option Error
scan_time zero none nt = (record { value = zero; valid = false }, none)
scan_time zero (some t) nt = (record { value = t; valid = true }, none)

unfoldable pub value_time : {T : Type 0} → Null T → Option T
unfolding value_of
value_time = value_of

unfoldable pub format : {T : Type 0} → (Text → T → Text) → Null T → Text → Text
format time_format nt layout = if not nt.valid then codes "-" else time_format layout nt.value

-- `NullInt64`: what is no integer is read as a float and cut.
unfoldable pub scan_cut :
    {F : Type 0}
    → (Int64 → Int64 × Option Error)
    → (F → Int64)
    → Null Int64
    → Bool
    → F × Option Error
    → Null Int64 × Option Error
unfolding set_scanned
scan_cut scan_int cut ni is_nil (f, some e) = (ni, some e)
scan_cut scan_int cut ni is_nil (f, none) = set_scanned ni is_nil (scan_int (cut f))

unfoldable pub scan_parsed :
    {F : Type 0}
    → (Int64 → Int64 × Option Error)
    → (F → Int64)
    → Null Int64
    → Bool
    → F × Option Error
    → Int64 × Option Error
    → Null Int64 × Option Error
unfolding scan_cut set_scanned
scan_parsed scan_int cut ni is_nil as_float (i, none) = set_scanned ni is_nil (i, none)
scan_parsed scan_int cut ni is_nil as_float (i, some e) = scan_cut scan_int cut ni is_nil as_float

unfoldable pub scan_int64 :
    {V : Type 0}
    → {F : Type 0} → (V → Int64 × Option Error)
    → (V → F × Option Error)
    → (Int64 → Int64 × Option Error)
    → (F → Int64)
    → (V → Bool)
    → V
    → Null Int64
    → Null Int64 × Option Error
unfolding scan_parsed
scan_int64 scan_i scan_f scan_int cut is_nil v ni =
    scan_parsed scan_int cut ni (is_nil v) (scan_f v) (scan_i v)

unfoldable pub get_int : Null Int64 → Int64
get_int ni = if not ni.valid then 0 else ni.value

unfoldable pub value_int64 : Null Int64 → Option Int64
unfolding value_of
value_int64 = value_of

unfoldable pub value_float64 : {F : Type 0} → Null F → Option F
unfolding value_of
value_float64 = value_of

unfoldable pub value_bool : Null Bool → Option Bool
unfolding value_of
value_bool = value_of

unfoldable pub value_string : Null Text → Option Text
unfolding value_of
value_string = value_of

unfoldable pub scan_bool :
    {V : Type 0} → (V → Bool × Option Error) → (V → Bool) → V → Null Bool → Null Bool × Option Error
unfolding set_scanned
scan_bool scan is_nil v nb = set_scanned nb (is_nil v) (scan v)

unfoldable pub scan_float64 :
    {V : Type 0}
    → {F : Type 0} → (V → F × Option Error)
    → (V → Bool)
    → V
    → Null F
    → Null F × Option Error
unfolding set_scanned
scan_float64 scan is_nil v nf = set_scanned nf (is_nil v) (scan v)

unfoldable pub scan_string :
    {V : Type 0} → (V → Text × Option Error) → (V → Bool) → V → Null Text → Null Text × Option Error
unfolding set_scanned
scan_string scan is_nil v ns = set_scanned ns (is_nil v) (scan v)

unfoldable pub optional_result : Null Text → Text
optional_result ns = if ns.valid then ns.value else codes "-"

-- JSON
unfoldable pub marshal_json_int64 : (Int64 → Result Text) → Null Int64 → Result Text
unfolding marshalled
marshal_json_int64 = marshalled

unfoldable pub unmarshal_json_int64 :
    (Int64 → Text → Int64 × Option Error) → Null Int64 → Text → Null Int64 × Option Error
unfolding unmarshalled
unmarshal_json_int64 = unmarshalled

unfoldable pub marshal_json_bool : (Bool → Result Text) → Null Bool → Result Text
unfolding marshalled
marshal_json_bool = marshalled

unfoldable pub unmarshal_json_bool :
    (Bool → Text → Bool × Option Error) → Null Bool → Text → Null Bool × Option Error
unfolding unmarshalled
unmarshal_json_bool = unmarshalled

unfoldable pub marshal_json_float64 : {F : Type 0} → (F → Result Text) → Null F → Result Text
unfolding marshalled
marshal_json_float64 = marshalled

unfoldable pub unmarshal_json_float64 :
    {F : Type 0} → (F → Text → F × Option Error) → Null F → Text → Null F × Option Error
unfolding unmarshalled
unmarshal_json_float64 = unmarshalled

unfoldable pub marshal_json_string : (Text → Result Text) → Null Text → Result Text
unfolding marshalled
marshal_json_string = marshalled

unfoldable pub unmarshal_json_string :
    (Text → Text → Text × Option Error) → Null Text → Text → Null Text × Option Error
unfolding unmarshalled
unmarshal_json_string = unmarshalled

unfoldable pub marshal_json_time : {T : Type 0} → (T → Result Text) → Null T → Result Text
unfolding marshalled
marshal_json_time = marshalled

-- A time is not valid until it is decoded, and stays as it was after an error.
unfoldable pub set_time : {T : Type 0} → Null T → T × Option Error → Null T × Option Error
set_time nt (t, some e) = (record nt { value = t }, some e)
set_time nt (t, none) = (record { value = t; valid = true }, none)

unfoldable pub unmarshal_json_time :
    {T : Type 0}
    → (Text → Text)
    → T
    → (T → Text → T × Option Error)
    → Null T
    → Text
    → Null T × Option Error
unfolding set_time
unmarshal_json_time to_lower zero decode nt b =
    if to_lower b == null_json_value
    then (record { value = zero; valid = false }, none)
    else set_time nt (decode nt.value b)
