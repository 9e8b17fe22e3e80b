-- ===== src/Aggregator/Loaded.antt =====
-- The names that a worker loads, against the rows of the checkpoint.
use aggregator_demo.Base.{
  ◌≡◌, ◌≢◌, refl, Option, Bool, true, false, ◌||◌, none, some, List, [], ◌∷◌, arith, ◌==◌, text_eq,
  contains, select,
}
use aggregator_demo.Base.Text.{Text}
use aggregator_demo.Base.Map.{Map, lookup, insert, get_or, lookup-insert}
use aggregator_demo.Entity.{Error, no_data, no_rows, Result, ok, err}
use aggregator_demo.Database.{
  BatchRow, batch_row, row_eq, Db, answer, name_set, committed_names, load_committed_file_names,
}
use aggregator_demo.Gensql.{select_rows, no_rows_as_no_data}
use aggregator_demo.Aggregator.Save.{Env, opened, begin_result, load_names}

module _ (nas_ip : Text) where
  -- The set that is loaded from the rows of the directory has exactly the names of its rows.
  name_set-rows :
      (rows : List BatchRow) (set : Map Text Bool) (f : Text)
      → get_or f (name_set set (select (λ r. r.nas_ip == nas_ip) rows)) false
        ≡ (contains rows (batch_row nas_ip f) || get_or f set false)
  unfolding name_set
  name_set-rows [] set f = refl
  name_set-rows (r ∷ rows) set f = ground (
    arith,
    name_set-rows rows set f,
    name_set-rows rows (insert r.file_name true set) f,
    lookup-insert f r.file_name true set,
  )

  pub name_set-from :
      (rows : List BatchRow) (f : Text)
      → get_or f (name_set [] (select (λ r. r.nas_ip == nas_ip) rows)) false
        ≡ contains rows (batch_row nas_ip f)
  unfolding lookup
  name_set-from rows f = ground (arith, name_set-rows rows [] f)

  -- What a worker may have loaded: an error, or exactly the names of the rows of the directory.
  abbrev pub IsCheckpoint : List BatchRow → Result (Map Text Bool) → Type 0
  IsCheckpoint rows (ok set) = (f : Text) → get_or f set false ≡ contains rows (batch_row nas_ip f)
  IsCheckpoint rows (err x) = Unit

  module _ (all : List BatchRow) where
    rows-IsCheckpoint :
        (rows : List BatchRow)
        → ((f : Text) → get_or f (name_set [] rows) false ≡ contains all (batch_row nas_ip f))
        → IsCheckpoint all (committed_names (select_rows (ok rows)))
    unfolding committed_names select_rows name_set
    rows-IsCheckpoint [] h = h
    rows-IsCheckpoint (r ∷ rows) h = h

    failed-IsCheckpoint :
        (x : Error)
        → x ≢ no_rows
        → x ≢ no_data
        → IsCheckpoint all (committed_names (err (no_rows_as_no_data x)))
    unfolding committed_names no_rows_as_no_data
    failed-IsCheckpoint no_rows h k = absurd (h refl)
    failed-IsCheckpoint no_data h k = absurd (k refl)
    failed-IsCheckpoint x h k = tt

    answered-IsCheckpoint :
        (fault : Option Error)
        → fault ≢ some no_rows
        → fault ≢ some no_data
        → IsCheckpoint all
            (committed_names (select_rows (answer fault (select (λ r. r.nas_ip == nas_ip) all))))
    unfolding answer
    answered-IsCheckpoint none h k =
        rows-IsCheckpoint (select (λ r. r.nas_ip == nas_ip) all) (name_set-from all)
    answered-IsCheckpoint (some x) h k =
        unfold select_rows in failed-IsCheckpoint x (λ p. h (cc p)) (λ p. k (cc p))

  -- Whatever else fails, a worker loads nothing, or exactly the checkpoint of its directory, if the
  -- driver does not report "no rows" for a query that has rows.
  pub load_names-IsCheckpoint :
      (e : Env) (db : Db)
      → e.select_names ≢ some no_rows
      → e.select_names ≢ some no_data
      → IsCheckpoint db.flow_batch (load_names e nas_ip db)
  unfolding load_names
  load_names-IsCheckpoint e db h k = begun-IsCheckpoint e.begin_load
    where
      begun-IsCheckpoint :
          (begin : Option Error)
          → IsCheckpoint db.flow_batch (elim (opened begin).1 [
            | some x ↦ err x
            | none ↦ load_committed_file_names e.select_names db nas_ip
          ])
      begun-IsCheckpoint none =
          unfold opened begin_result load_committed_file_names in
          answered-IsCheckpoint db.flow_batch e.select_names h k
      begun-IsCheckpoint (some x) = unfold opened begin_result in tt
