-- ===== src/Machine/Refines.antt =====
-- The machine run to its end, compared with `Aggregate` as one function.
use aggregator_demo.Base.{
  ℕ, zero, suc, ◌+◌, ◌≡◌, refl, Bool, true, false, ◌||◌, Option, none, some, List, ◌∷◌, arith,
  Bool-cases, inl, inr, if◌then◌else◌, length,
}
use aggregator_demo.Base.Text.{Text}
use aggregator_demo.Base.Map.{Map}
use aggregator_demo.Entity.{
  Error, no_data, OnlineSession, Chunk, Result, ok, err, Outcome, done, panic,
}
use aggregator_demo.Traffic.{
  Net, ChannelMap, TrafficMap, FlowAccumulator, new_flow_accumulator, accumulate_line, result,
  sift_traffic,
}
use aggregator_demo.Metrics.{
  download, upload, observe_flow_size, inc_nas, success, add_chunks_saved, add_accounted_traffic,
}
use aggregator_demo.Database.{Db}
use aggregator_demo.Storage.{NasDir, Streamed, remove_old}
use aggregator_demo.Flow.{prepare_and_stream}
use aggregator_demo.Aggregator.Save.{
  Env, load_names, save_chunk_list_with_checkpoint, remove_checkpoint, after_files, remove_old_flow,
}
use aggregator_demo.Aggregator.Stages.{
  State, record_event, nas_failed, has_new_file, clean, sum_traffic, charged, and_charged,
  account_traffic, after_commit, commit_chunks, after_account, after_sift, after_result,
  after_stream, after_load, aggregate,
}
use aggregator_demo.Machine.{
  Reason, counted, no_traffic, start, saving, cleaning, stopped, Local, local, load_point, unread,
  commit_point, clean_point, account_panics, sift_point, result_point, stream_point, run,
}

-- The directory and the database of a state, with the worker at its end.
abbrev ended : State → Local
ended s = local stopped s.dir s.db

module _ (e : Env) (nas_ip : Text) (sessions : List OnlineSession) (channel_map : ChannelMap)
    (n : Net) where
  abbrev go : ℕ → Local → Local
  go = run e nas_ip sessions channel_map n

  run-stopped : (k : ℕ) (d : NasDir) (db : Db) → go k (local stopped d db) ≡ local stopped d db
  unfolding run
  run-stopped zero d db = refl
  run-stopped (suc k) d db = run-stopped k d db

  run-clean_point :
      (k : ℕ) (db : Db) (r : NasDir × Option Error)
      → go (suc k) (local (clean_point r.1) r.0 db)
        ≡ local stopped (after_files e nas_ip db r).0 (after_files e nas_ip db r).1
  unfolding run clean_point after_files
  run-clean_point k db (d, some x) = run-stopped k d db
  run-clean_point k db (d, none) = run-stopped k d (remove_checkpoint e nas_ip db)

  run-cleaning :
      (reason : Reason) (k : ℕ) (s : State)
      → go (suc (suc k)) (local (cleaning reason) s.dir s.db) ≡ ended (clean e nas_ip s)
  unfolding run clean remove_old_flow
  run-cleaning reason k s = run-clean_point k s.db (remove_old e.files s.dir)

  run-commit_point :
      (k : ℕ) (chunks : List Chunk) (s : State) (r : Db × Option Error)
      → go (suc (suc k)) (local (commit_point r.1) s.dir r.0)
        ≡ ended (after_commit e nas_ip chunks s r)
  unfolding commit_point after_commit nas_failed
  run-commit_point k chunks s (db, some x) = run-stopped (suc (suc k)) s.dir db
  run-commit_point k chunks s (db, none) = run-cleaning counted k (
      record_event (inc_nas success)
        (record_event (add_chunks_saved (length chunks)) (record s { db = db })))

  run-saving :
      (k : ℕ) (fresh names : List Text) (chunks : List Chunk) (s : State)
      → go (suc (suc (suc k))) (local (saving fresh names chunks) s.dir s.db)
        ≡ ended (commit_chunks e nas_ip chunks names s)
  unfolding run commit_chunks
  run-saving k fresh names chunks s =
      run-commit_point k chunks s (save_chunk_list_with_checkpoint e nas_ip chunks names s.db)

  module _ (k : ℕ) (fresh names : List Text) (chunks : List Chunk) where
    run-charged :
        (x : ℕ) (s : State) (panics : Bool)
        → go
            (suc (suc (suc k)))
            (local (if panics then stopped else saving fresh names chunks) s.dir s.db)
          ≡ ended (after_account e nas_ip chunks names (charged e nas_ip upload x s panics)).0
    unfolding charged after_account
    run-charged x s true = run-stopped (suc (suc (suc k))) s.dir s.db
    run-charged x s false =
        run-saving k fresh names chunks (record_event (add_accounted_traffic upload x) s)

    run-and_charged :
        (x y : ℕ) (s : State) (panics : Bool)
        → go (suc (suc (suc k))) (
            local
              (if panics || e.counter_panics y then stopped else saving fresh names chunks)
              s.dir
              s.db)
          ≡ ended
              (after_account e nas_ip chunks names
                (and_charged e nas_ip upload y (charged e nas_ip download x s panics))).0
    unfolding charged and_charged after_account
    run-and_charged x y s true = run-stopped (suc (suc (suc k))) s.dir s.db
    run-and_charged x y s false =
        run-charged y (record_event (add_accounted_traffic download x) s) (e.counter_panics y)

    run-account_traffic :
        (s : State)
        → go (suc (suc (suc k))) (
            local
              (if account_panics e nas_ip chunks then stopped else saving fresh names chunks)
              s.dir
              s.db)
          ≡ ended (after_account e nas_ip chunks names (account_traffic e nas_ip chunks s)).0
    unfolding account_panics account_traffic
    run-account_traffic s =
        let down = sum_traffic e nas_ip (λ c. c.download) 0 chunks in
        run-and_charged down (sum_traffic e nas_ip (λ c. c.upload) 0 chunks) s
          (e.counter_panics down)

  run-sift_point :
      (k : ℕ) (committed : Map Text Bool) (names : List Text) (s : State)
      (o : Outcome (List Chunk × Option Error))
      → go (suc (suc (suc k))) (local (sift_point e nas_ip committed names o) s.dir s.db)
        ≡ ended (after_sift e nas_ip names s o).0
  unfolding sift_point after_sift nas_failed
  run-sift_point k committed names s panic = run-stopped (suc (suc (suc k))) s.dir s.db
  run-sift_point k committed names s (done (chunks, none)) =
      run-account_traffic k (unread committed names) names chunks s
  run-sift_point k committed names s (done (chunks, some no_data)) =
      run-cleaning no_traffic (suc k) s
  run-sift_point k committed names s (done (chunks, some x)) =
      run-stopped (suc (suc (suc k))) s.dir s.db

  run-result_point :
      (k : ℕ) (committed : Map Text Bool) (names : List Text) (s : State)
      (r : TrafficMap × Option Error)
      → go
          (suc (suc (suc k)))
          (local (result_point e nas_ip sessions channel_map committed names r) s.dir s.db)
        ≡ ended (after_result e nas_ip sessions channel_map names s r).0
  unfolding result_point after_result
  run-result_point k committed names s (m, none) =
      run-sift_point k committed names s (sift_traffic channel_map m sessions)
  run-result_point k committed names s (m, some no_data) = run-cleaning no_traffic (suc k) s
  run-result_point k committed names s (m, some x) = run-stopped (suc (suc (suc k))) s.dir s.db

  run-stream_point :
      (k : ℕ) (committed : Map Text Bool) (s : State) (r : Streamed FlowAccumulator)
      (o : Option Error)
      → go
          (suc (suc (suc k)))
          (local (stream_point e nas_ip sessions channel_map committed r o) s.dir s.db)
        ≡ ended (after_stream e nas_ip sessions channel_map committed s r o).0
  unfolding stream_point after_stream nas_failed
  run-stream_point k committed s r (some x) = run-stopped (suc (suc (suc k))) s.dir s.db
  run-stream_point k committed s r none =
      let t : State = record s { events = observe_flow_size r.size ∷ s.events } in
      elim (Bool-cases (has_new_file r.names committed)) [
        | inl h ↦ rw h (run-result_point k committed r.names t (result r.state))
        | inr h ↦ rw h (run-cleaning counted (suc k) t)
      ]

  run-load_point :
      (k : ℕ) (s : State) (r : Result (Map Text Bool))
      → go (suc (suc (suc (suc k)))) (local (load_point r) s.dir s.db)
        ≡ ended (after_load e nas_ip sessions channel_map n s r).0
  unfolding run load_point after_load nas_failed
  run-load_point k s (err x) = run-stopped (suc (suc (suc k))) s.dir s.db
  run-load_point k s (ok committed) =
      let r =
        prepare_and_stream e.files (accumulate_line n) committed (new_flow_accumulator channel_map)
          s.dir in
      run-stream_point k committed (record s { dir = r.0 }) r.1 r.1.error

  -- The machine ends within five steps, and it leaves the directory and the database that
  -- `Aggregate` leaves, whatever fails.
  pub run-aggregate :
      (k : ℕ) (s : State)
      → run e nas_ip sessions channel_map n (5 + k) (local start s.dir s.db)
        ≡ local stopped
            (aggregate e nas_ip sessions channel_map n s).0.dir
            (aggregate e nas_ip sessions channel_map n s).0.db
  unfolding run aggregate
  run-aggregate k s = rw (five k) (run-load_point k s (load_names e nas_ip s.db))
    where
      five : (k : ℕ) → 5 + k ≡ suc (suc (suc (suc (suc k))))
      five k = omega arith
