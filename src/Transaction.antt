-- ===== src/Transaction.antt =====
-- src/internal/transaction/sql.go: the session that opens a transaction and ends it once. The
-- transaction `Tx` is that of the third-party sqlx; what its calls return is an argument.
use aggregator_demo.Base.{Bool, true, false, not, ◌&&◌, Option, none, some, if◌then◌else◌}
use aggregator_demo.Entity.{Error, active_transaction, not_init, closed, Result, ok, err}

pub record SqlSession {ℓ} (Tx : Type ℓ) : Type ℓ where
  pub init : Bool
  pub current_tx : Option Tx

module _ {ℓ} {Tx : Type ℓ} where
  abbrev pub is_open : Option Tx → Bool
  is_open none = false
  is_open (some tx) = true

  unfoldable pub tx_is_active : SqlSession Tx → Bool
  tx_is_active t = t.init && is_open t.current_tx

  -- `BeginTxx` gives a transaction, or an error and nil.
  begun : Result Tx → SqlSession Tx × Option Error
  begun (ok tx) = (record { init = true; current_tx = some tx }, none)
  begun (err e) = (record { init = true; current_tx = none }, some e)

  -- `Start`, by what `BeginTxx` returns
  unfoldable pub start : Result Tx → SqlSession Tx → SqlSession Tx × Option Error
  unfolding begun
  start begin t =
      if t.init && is_open t.current_tx then (t, some active_transaction) else begun begin

  -- The `switch` that `Rollback` and `Commit` share, by what the driver's call returns.
  finish : (Tx → Option Error) → SqlSession Tx → Option Tx → SqlSession Tx × Option Error
  finish driver t none = (t, some closed)
  finish driver t (some tx) = (record { init = false; current_tx = none }, driver tx)

  unfoldable pub rollback : (Tx → Option Error) → SqlSession Tx → SqlSession Tx × Option Error
  unfolding finish
  rollback driver t = if not t.init then (t, some not_init) else finish driver t t.current_tx

  unfoldable pub commit : (Tx → Option Error) → SqlSession Tx → SqlSession Tx × Option Error
  unfolding finish
  commit driver t = if not t.init then (t, some not_init) else finish driver t t.current_tx

-- `NewSQLSession`
unfoldable pub new_sql_session {ℓ} : (Tx : Type ℓ) → SqlSession Tx
new_sql_session Tx = record { init = false; current_tx = none }
