-- ===== src/Gensql.antt =====
-- src/tools/gensql: queries over sqlx. The answer of the driver is an argument; an empty answer and
-- `sql.ErrNoRows` both become `global.ErrNoData`, every other error is passed on.
use aggregator_demo.Base.{◌≡◌, ◌≢◌, Option, none, some, List, [], ◌∷◌, arith}
use aggregator_demo.Entity.{Error, no_data, no_rows, Result, ok, err}

-- The last `switch`, on an error of the driver.
unfoldable pub no_rows_as_no_data : Error → Error
no_rows_as_no_data no_rows = no_data
no_rows_as_no_data e = e

module _ {ℓ} {T : Type ℓ} where
  -- `Get`
  unfoldable pub get : Result T → Result T
  unfolding no_rows_as_no_data
  get (ok row) = ok row
  get (err e) = err (no_rows_as_no_data e)

  -- `GetNamed` and `GetNamedStruct`: preparing the statement may fail first.
  unfoldable pub get_named : Option Error → Result T → Result T
  unfolding get
  get_named (some e) answer = err e
  get_named none answer = get answer

  -- `Select`
  unfoldable pub select_rows : Result (List T) → Result (List T)
  unfolding no_rows_as_no_data
  select_rows (ok []) = err no_data
  select_rows (ok (row ∷ rows)) = ok (row ∷ rows)
  select_rows (err e) = err (no_rows_as_no_data e)

  -- `SelectNamed`
  unfoldable pub select_named : Option Error → Result (List T) → Result (List T)
  unfolding select_rows
  select_named (some e) answer = err e
  select_named none answer = select_rows answer

  -- A query succeeds exactly with the rows that the driver gave, and never with no row.
  pub select_rows-ok :
      (answer : Result (List T)) (rows : List T)
      → select_rows answer ≡ ok rows
      → (answer ≡ ok rows) × (rows ≢ [])
  unfolding select_rows
  select_rows-ok (ok []) rows h = ground arith
  select_rows-ok (ok (row ∷ more)) rows h = ground arith
  select_rows-ok (err e) rows h = ground arith
