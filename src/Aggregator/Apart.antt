-- ===== src/Aggregator/Apart.antt =====
-- A run of `Aggregate` leaves the rows that other directories have in the checkpoint.
use mathlib.Core.Path.{subst}
use aggregator_demo.Base.{
  ◌≡◌, ◌≢◌, refl, sym, ◌∙◌, inl, inr, Bool, true, false, Option, none, some, List, [], ◌∷◌, ◌++◌,
  map, arith, ◌==◌, text_eq, if◌then◌else◌, select, contains, Bool-cases,
}
use aggregator_demo.Base.Text.{Text}
use aggregator_demo.Base.Map.{Map}
use aggregator_demo.Entity.{
  Error, no_data, OnlineSession, Chunk, Result, ok, err, Outcome, done, panic,
}
use aggregator_demo.Traffic.{
  Net, ChannelMap, TrafficMap, FlowAccumulator, new_flow_accumulator, accumulate_line, result,
  sift_traffic,
}
use aggregator_demo.Database.{
  BatchRow, batch_row, row_eq, Db, insert_chunk, insert_row, delete_rows, apply_all, apply,
}
use aggregator_demo.Metrics.{observe_flow_size}
use aggregator_demo.Storage.{NasDir, remove_old, Streamed}
use aggregator_demo.Flow.{prepare_and_stream}
use aggregator_demo.Aggregator.Save.{
  Env, load_names, after_files, remove_old_flow, save_chunk_list_with_checkpoint,
}
use aggregator_demo.Aggregator.Stages.{
  State, record_event, nas_failed, has_new_file, clean, account_traffic, after_commit,
  commit_chunks, after_account, after_sift, after_result, after_stream, after_load, aggregate,
}
use aggregator_demo.Aggregator.Atomic.{saved, rows_of, save-AllOrNothing}
use aggregator_demo.Aggregator.Additions.{account_traffic-db}
use aggregator_demo.Aggregator.Healthy.{rows_at}
use aggregator_demo.Machine.Applied.{remove-db}

-- A property of databases that a save and a removal of the directory's rows keep.
module _ {κ} (nas_ip : Text) (G : Db → Type κ)
    (saves : (e : Env) (chunks : List Chunk) (names : List Text) (db : Db)
      → G db
      → G (apply_all db (saved e nas_ip chunks names)))
    (removes : (db : Db) → G db → G (apply db (delete_rows nas_ip))) (e : Env) where
  after_files-keeps : (db : Db) (r : NasDir × Option Error) → G db → G (after_files e nas_ip db r).1
  unfolding after_files
  after_files-keeps db (d, some x) g = g
  after_files-keeps db (d, none) g = elim (remove-db e nas_ip db) [
    | inl p ↦ subst G (sym p) g
    | inr p ↦ subst G (sym p) (removes db g)
  ]

  clean-keeps : (s : State) → G s.db → G (clean e nas_ip s).db
  unfolding clean remove_old_flow
  clean-keeps s g = after_files-keeps s.db (remove_old e.files s.dir) g

  save-keeps :
      (chunks : List Chunk) (names : List Text) (db : Db)
      → G db
      → G (save_chunk_list_with_checkpoint e nas_ip chunks names db).0
  save-keeps chunks names db g = elim (save-AllOrNothing e nas_ip chunks names db).0 [
    | inl p ↦ subst G (sym p) g
    | inr p ↦ subst G (sym p) (saves e chunks names db g)
  ]

  after_commit-keeps :
      (chunks : List Chunk) (s : State) (r : Db × Option Error)
      → G r.0
      → G (after_commit e nas_ip chunks s r).db
  unfolding after_commit nas_failed
  after_commit-keeps chunks s (db, some x) g = g
  after_commit-keeps chunks s (db, none) g = clean-keeps _ g

  after_account-keeps :
      (chunks : List Chunk) (names : List Text) (r : State × Outcome (Unit {0}))
      → G r.0.db
      → G (after_account e nas_ip chunks names r).0.db
  unfolding after_account commit_chunks
  after_account-keeps chunks names (s, panic) g = g
  after_account-keeps chunks names (s, done _) g =
      after_commit-keeps chunks s (save_chunk_list_with_checkpoint e nas_ip chunks names s.db)
        (save-keeps chunks names s.db g)

  after_sift-keeps :
      (names : List Text) (s : State) (o : Outcome (List Chunk × Option Error))
      → G s.db
      → G (after_sift e nas_ip names s o).0.db
  unfolding after_sift nas_failed
  after_sift-keeps names s panic g = g
  after_sift-keeps names s (done (c, none)) g =
      after_account-keeps c names (account_traffic e nas_ip c s)
        (subst G (sym (account_traffic-db e nas_ip c s)) g)
  after_sift-keeps names s (done (c, some no_data)) g = clean-keeps s g
  after_sift-keeps names s (done (c, some x)) g = g

  module _ (sessions : List OnlineSession) (channel_map : ChannelMap) where
    after_result-keeps :
        (names : List Text) (s : State) (r : TrafficMap × Option Error)
        → G s.db
        → G (after_result e nas_ip sessions channel_map names s r).0.db
    unfolding after_result
    after_result-keeps names s (m, none) g =
        after_sift-keeps names s (sift_traffic channel_map m sessions) g
    after_result-keeps names s (m, some no_data) g = clean-keeps s g
    after_result-keeps names s (m, some x) g = g

    after_stream-keeps :
        (committed : Map Text Bool) (s : State) (r : Streamed FlowAccumulator) (o : Option Error)
        → G s.db
        → G (after_stream e nas_ip sessions channel_map committed s r o).0.db
    unfolding after_stream nas_failed
    after_stream-keeps committed s r (some x) g = g
    after_stream-keeps committed s r none g =
        let t = record_event (observe_flow_size r.size) s in
        elim (Bool-cases (has_new_file r.names committed)) [
          | inl h ↦ rw h (after_result-keeps r.names t (result r.state) g)
          | inr h ↦ rw h (clean-keeps t g)
        ]

    module _ (n : Net) where
      after_load-keeps :
          (s : State) (r : Result (Map Text Bool))
          → G s.db
          → G (after_load e nas_ip sessions channel_map n s r).0.db
      unfolding after_load nas_failed
      after_load-keeps s (err x) g = g
      after_load-keeps s (ok committed) g =
          let r =
            prepare_and_stream e.files (accumulate_line n) committed
              (new_flow_accumulator channel_map) s.dir in
          after_stream-keeps committed (record s { dir = r.0 }) r.1 r.1.error g

      pub aggregate-keeps :
          (s : State) → G s.db → G (aggregate e nas_ip sessions channel_map n s).0.db
      unfolding aggregate
      aggregate-keeps s g = after_load-keeps s (load_names e nas_ip s.db) g

module _ (j nas_ip : Text) (other : j ≢ nas_ip) where
  insert_row-rows :
      (rows : List BatchRow) (f : Text)
      → select (λ r. r.nas_ip == j) (rows ++ batch_row nas_ip f ∷ [])
        ≡ select (λ r. r.nas_ip == j) rows
  insert_row-rows [] f = ground (arith, λ (p : nas_ip ≡ j). other (sym p))
  insert_row-rows (r ∷ rows) f = ground (arith, insert_row-rows rows f)

  delete_rows-rows :
      (rows : List BatchRow)
      → select (λ r. r.nas_ip == j) (select (λ r. if r.nas_ip == nas_ip then false else true) rows)
        ≡ select (λ r. r.nas_ip == j) rows
  delete_rows-rows [] = refl
  delete_rows-rows (r ∷ rows) = elim (text_eq.dec r.nas_ip nas_ip) [
    | yes p ↦ ground (arith, delete_rows-rows rows, λ (q : r.nas_ip ≡ j). other (sym q ∙ p))
    | no p ↦ ground (arith, delete_rows-rows rows)
  ]

  apply_rows-rows_at :
      (names : List Text) (db : Db) → rows_at j (apply_all db (rows_of nas_ip names)) ≡ rows_at j db
  unfolding apply_all
  apply_rows-rows_at [] db = refl
  apply_rows-rows_at (f ∷ names) db =
      apply_rows-rows_at names (apply db (insert_row (batch_row nas_ip f)))
      ∙ (unfold apply in
          elim (Bool-cases (contains db.flow_batch (batch_row nas_ip f))) [
            | inl p ↦ rw p refl
            | inr p ↦ rw p (insert_row-rows db.flow_batch f)
          ])

  saved-rows_at :
      (chunks : List Chunk) (names : List Text) (db : Db)
      → rows_at j (apply_all db (map insert_chunk chunks ++ rows_of nas_ip names)) ≡ rows_at j db
  unfolding apply_all
  saved-rows_at [] names db = apply_rows-rows_at names db
  saved-rows_at (c ∷ chunks) names db =
      saved-rows_at chunks names (apply db (insert_chunk c)) ∙ (unfold apply in refl)

  removed-rows_at : (db : Db) → rows_at j (apply db (delete_rows nas_ip)) ≡ rows_at j db
  unfolding apply
  removed-rows_at db = delete_rows-rows db.flow_batch

  -- A run on one directory leaves the rows of the checkpoint of any other, whatever fails in it.
  pub aggregate-rows_at :
      (e : Env) (sessions : List OnlineSession) (channel_map : ChannelMap) (n : Net) (s : State)
      → rows_at j (aggregate e nas_ip sessions channel_map n s).0.db ≡ rows_at j s.db
  aggregate-rows_at e sessions channel_map n s =
      aggregate-keeps nas_ip (λ db. rows_at j db ≡ rows_at j s.db)
        (λ e chunks names db g. saved-rows_at chunks names db ∙ g) (λ db g. removed-rows_at db ∙ g)
        e sessions channel_map n s refl
