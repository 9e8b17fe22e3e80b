-- ===== src/Aggregator/Results.antt =====
-- The outcomes that a run of `Aggregate` records.
use aggregator_demo.Base.{
  ℕ, suc, ◌+◌, ◌≡◌, refl, Bool, true, false, Option, none, some, List, [], ◌∷◌, arith, Bool-cases,
  inl, inr,
}
use aggregator_demo.Base.Text.{Text}
use aggregator_demo.Base.Map.{Map}
use aggregator_demo.Entity.{
  Error, no_data, OnlineSession, Chunk, Result, ok, err, Outcome, done, panic,
}
use aggregator_demo.Traffic.{
  Net, ChannelMap, TrafficMap, FlowAccumulator, new_flow_accumulator, accumulate_line, result,
  sift_traffic,
}
use aggregator_demo.Metrics.{
  Event, inc_nas, inc_nas_error, observe_flow_size, add_chunks_saved, add_accounted_traffic,
  inc_cycle_error, set_nas_discovered, set_cycle_in_progress, set_last_success, inc_worker_panic,
  Direction, download, upload,
}
use aggregator_demo.Database.{Db}
use aggregator_demo.Storage.{Streamed}
use aggregator_demo.Flow.{prepare_and_stream}
use aggregator_demo.Aggregator.Save.{Env, load_names, save_chunk_list_with_checkpoint}
use aggregator_demo.Aggregator.Stages.{
  State, nas_failed, has_new_file, clean, sum_traffic, charged, and_charged, account_traffic,
  after_commit, commit_chunks, after_account, after_sift, after_result, after_stream, after_load,
  aggregate,
}

-- The outcomes among the events.
abbrev pub nas_results : List Event → ℕ
nas_results [] = 0
nas_results (inc_nas r ∷ events) = suc (nas_results events)
nas_results (inc_nas_error s ∷ events) = nas_results events
nas_results (observe_flow_size n ∷ events) = nas_results events
nas_results (add_chunks_saved n ∷ events) = nas_results events
nas_results (add_accounted_traffic d n ∷ events) = nas_results events
nas_results (inc_cycle_error r ∷ events) = nas_results events
nas_results (set_nas_discovered n ∷ events) = nas_results events
nas_results (set_cycle_in_progress b ∷ events) = nas_results events
nas_results (set_last_success ∷ events) = nas_results events
nas_results (inc_worker_panic ∷ events) = nas_results events

-- One for a run that returns, none for one that panics.
abbrev pub returned : Outcome (Unit {0}) → ℕ
returned (done _) = 1
returned panic = 0

module _ (e : Env) (nas_ip : Text) where
  -- The outcome is recorded exactly if the run returns.
  abbrev Counts : ℕ → State × Outcome (Unit {0}) → Type 0
  Counts k r = nas_results r.0.events ≡ k + returned r.1

  charged-count :
      (k : ℕ) (d : Direction) (x : ℕ) (s : State) (b : Bool)
      → nas_results s.events ≡ k
      → nas_results (charged e nas_ip d x s b).0.events ≡ k
  unfolding charged
  charged-count k d x s true h = h
  charged-count k d x s false h = h

  and_charged-count :
      (k : ℕ) (d : Direction) (x : ℕ) (r : State × Outcome (Unit {0}))
      → nas_results r.0.events ≡ k
      → nas_results (and_charged e nas_ip d x r).0.events ≡ k
  unfolding and_charged
  and_charged-count k d x (s, panic) h = h
  and_charged-count k d x (s, done _) h = charged-count k d x s (e.counter_panics x) h

  account_traffic-count :
      (chunks : List Chunk) (s : State)
      → nas_results (account_traffic e nas_ip chunks s).0.events ≡ nas_results s.events
  unfolding account_traffic
  account_traffic-count chunks s =
      let down = sum_traffic e nas_ip (λ c. c.download) 0 chunks in
      let up = sum_traffic e nas_ip (λ c. c.upload) 0 chunks in
      and_charged-count (nas_results s.events) upload up
        (and_charged e nas_ip download down (s, done tt))
        (and_charged-count (nas_results s.events) download down (s, done tt) refl)

  after_commit-count :
      (chunks : List Chunk) (s : State) (r : Db × Option Error)
      → nas_results (after_commit e nas_ip chunks s r).events ≡ suc (nas_results s.events)
  unfolding after_commit nas_failed clean
  after_commit-count chunks s (db, some x) = refl
  after_commit-count chunks s (db, none) = refl

  after_account-Counts :
      (k : ℕ) (chunks : List Chunk) (names : List Text) (r : State × Outcome (Unit {0}))
      → nas_results r.0.events ≡ k
      → Counts k (after_account e nas_ip chunks names r)
  unfolding after_account commit_chunks
  after_account-Counts k chunks names (s, panic) h = omega (arith, h)
  after_account-Counts k chunks names (s, done _) h =
      let r = save_chunk_list_with_checkpoint e nas_ip chunks names s.db in
      omega (arith, h, after_commit-count chunks s r)

  after_sift-Counts :
      (names : List Text) (s : State) (o : Outcome (List Chunk × Option Error))
      → Counts (nas_results s.events) (after_sift e nas_ip names s o)
  unfolding after_sift nas_failed clean
  after_sift-Counts names s panic = omega arith
  after_sift-Counts names s (done (chunks, none)) =
      after_account-Counts (nas_results s.events) chunks names (account_traffic e nas_ip chunks s)
        (account_traffic-count chunks s)
  after_sift-Counts names s (done (chunks, some no_data)) = omega arith
  after_sift-Counts names s (done (chunks, some x)) = omega arith

  module _ (sessions : List OnlineSession) (channel_map : ChannelMap) where
    after_result-Counts :
        (names : List Text) (s : State) (r : TrafficMap × Option Error)
        → Counts (nas_results s.events) (after_result e nas_ip sessions channel_map names s r)
    unfolding after_result clean
    after_result-Counts names s (m, none) =
        after_sift-Counts names s (sift_traffic channel_map m sessions)
    after_result-Counts names s (m, some no_data) = omega arith
    after_result-Counts names s (m, some x) = omega arith

    after_stream-Counts :
        (committed : Map Text Bool) (s : State) (r : Streamed FlowAccumulator) (o : Option Error)
        → Counts (nas_results s.events) (after_stream e nas_ip sessions channel_map committed s r o)
    unfolding after_stream nas_failed clean
    after_stream-Counts committed s r (some x) = omega arith
    after_stream-Counts committed s r none =
        let t : State = record s { events = observe_flow_size r.size ∷ s.events } in
        elim (Bool-cases (has_new_file r.names committed)) [
          | inl h ↦ rw h (after_result-Counts r.names t (result r.state))
          | inr h ↦ rw h (omega arith)
        ]

    module _ (n : Net) where
      after_load-Counts :
          (s : State) (r : Result (Map Text Bool))
          → Counts (nas_results s.events) (after_load e nas_ip sessions channel_map n s r)
      unfolding after_load nas_failed
      after_load-Counts s (err x) = omega arith
      after_load-Counts s (ok committed) =
          let r =
            prepare_and_stream e.files (accumulate_line n) committed
              (new_flow_accumulator channel_map) s.dir in
          after_stream-Counts committed (record s { dir = r.0 }) r.1 r.1.error

      -- A run of `Aggregate` that returns records exactly one outcome, whatever fails in it, and one
      -- that panics records none.
      pub aggregate-nas_results :
          (s : State)
          → nas_results (aggregate e nas_ip sessions channel_map n s).0.events
            ≡ nas_results s.events + returned (aggregate e nas_ip sessions channel_map n s).1
      unfolding aggregate
      aggregate-nas_results s = after_load-Counts s (load_names e nas_ip s.db)
