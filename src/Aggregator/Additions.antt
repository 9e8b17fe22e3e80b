-- ===== src/Aggregator/Additions.antt =====
-- What a run of `Aggregate` adds to the table of chunks, stage by stage.
use mathlib.Core.Path.{subst}
use aggregator_demo.Base.{
  length, ℕ, ◌≡◌, refl, ap, ◌∙◌, inl, inr, Bool, true, false, Option, none, some, List, [], ◌∷◌,
  Bool-cases, text_eq,
}
use aggregator_demo.Base.Text.{Text}
use aggregator_demo.Base.Map.{Map}
use aggregator_demo.Entity.{Error, no_data, OnlineSession, Chunk, ok, Outcome, done, panic}
use aggregator_demo.Traffic.{
  Net, ChannelMap, TrafficMap, FlowAccumulator, new_flow_accumulator, accumulate_line, result,
  sift_loop, sifted, log_no_data, sift_traffic,
}
use aggregator_demo.Metrics.{
  inc_nas, success, add_chunks_saved, Direction, download, upload, observe_flow_size,
}
use aggregator_demo.Database.{Db, row_eq}
use aggregator_demo.Storage.{NasDir, Streamed}
use aggregator_demo.Flow.{prepare_and_stream}
use aggregator_demo.Aggregator.Save.{Env, committed, load_names, save_chunk_list_with_checkpoint}
use aggregator_demo.Aggregator.Stages.{
  State, record_event, nas_failed, has_new_file, clean, sum_traffic, charged, and_charged,
  account_traffic, after_commit, commit_chunks, after_account, after_sift, after_result,
  after_stream, after_load, aggregate,
}
use aggregator_demo.Aggregator.Chunks.{Adds, Adds-same, clean-chunk, save-Adds}

module _ (e : Env) (nas_ip : Text) where
  after_commit-Adds :
      (chunks : List Chunk) (s : State) (r : Db × Option Error)
      → Adds chunks s.db r.0
      → Adds chunks s.db (after_commit e nas_ip chunks s r).db
  unfolding after_commit nas_failed
  after_commit-Adds chunks s (db, some x) h = h
  after_commit-Adds chunks s (db, none) h =
      let t : State =
        record_event (inc_nas success)
          (record_event (add_chunks_saved (length chunks)) (record s { db = db })) in
      Adds-same e nas_ip chunks s.db db (clean e nas_ip t).db (clean-chunk e nas_ip t) h

  charged-db :
      (d : Direction) (x : ℕ) (s : State) (b : Bool) → (charged e nas_ip d x s b).0.db ≡ s.db
  unfolding charged
  charged-db d x s true = refl
  charged-db d x s false = refl

  and_charged-db :
      (d : Direction) (x : ℕ) (r : State × Outcome (Unit {0}))
      → (and_charged e nas_ip d x r).0.db ≡ r.0.db
  unfolding and_charged
  and_charged-db d x (s, panic) = refl
  and_charged-db d x (s, done _) = charged-db d x s (e.counter_panics x)

  pub account_traffic-db :
      (chunks : List Chunk) (s : State) → (account_traffic e nas_ip chunks s).0.db ≡ s.db
  unfolding account_traffic
  account_traffic-db chunks s =
      let down = sum_traffic e nas_ip (λ c. c.download) 0 chunks in
      let up = sum_traffic e nas_ip (λ c. c.upload) 0 chunks in
      and_charged-db upload up (and_charged e nas_ip download down (s, done tt))
      ∙ and_charged-db download down (s, done tt)

  after_account-Adds :
      (chunks : List Chunk) (names : List Text) (db : Db) (r : State × Outcome (Unit {0}))
      → r.0.db ≡ db
      → Adds chunks db (after_account e nas_ip chunks names r).0.db
  unfolding after_account commit_chunks
  after_account-Adds chunks names db (s, panic) h = inl (ap (λ d. d.chunk) h)
  after_account-Adds chunks names db (s, done _) h =
      let r = save_chunk_list_with_checkpoint e nas_ip chunks names s.db in
      subst (λ d. Adds chunks d (after_commit e nas_ip chunks s r).db) h
        (after_commit-Adds chunks s r (save-Adds e nas_ip chunks names s.db))

  after_sift-Adds :
      (chunks : List Chunk) (names : List Text) (s : State)
      (o : Outcome (List Chunk × Option Error))
      → ((c : List Chunk) → o ≡ done (c, none) → c ≡ chunks)
      → Adds chunks s.db (after_sift e nas_ip names s o).0.db
  unfolding after_sift nas_failed
  after_sift-Adds chunks names s panic h = inl refl
  after_sift-Adds chunks names s (done (c, none)) h =
      subst (λ x. Adds x s.db (after_sift e nas_ip names s (done (c, none))).0.db) (h c refl)
        (after_account-Adds c names s.db (account_traffic e nas_ip c s) (account_traffic-db c s))
  after_sift-Adds chunks names s (done (c, some no_data)) h = inl (clean-chunk e nas_ip s)
  after_sift-Adds chunks names s (done (c, some x)) h = inl refl

  sifted-chunks :
      (sessions : List OnlineSession) (chunks c : List Chunk)
      → sifted sessions chunks ≡ done (c, none)
      → c ≡ chunks
  unfolding sifted log_no_data
  sifted-chunks [] [] c h = cc h
  sifted-chunks (sess ∷ rest) [] c h = cc h
  sifted-chunks sessions (x ∷ chunks) c h = cc h

  module _ (sessions : List OnlineSession) (channel_map : ChannelMap) where
    after_result-Adds :
        (names : List Text) (s : State) (r : TrafficMap × Option Error)
        → Adds
            (sift_loop channel_map r.0 sessions)
            s.db
            (after_result e nas_ip sessions channel_map names s r).0.db
    unfolding after_result sift_traffic
    after_result-Adds names s (m, none) =
        after_sift-Adds (sift_loop channel_map m sessions) names s
          (sift_traffic channel_map m sessions)
          (sifted-chunks sessions (sift_loop channel_map m sessions))
    after_result-Adds names s (m, some no_data) = inl (clean-chunk e nas_ip s)
    after_result-Adds names s (m, some x) = inl refl

    after_stream-Adds :
        (committed : Map Text Bool) (s : State) (r : Streamed FlowAccumulator) (o : Option Error)
        → Adds
            (sift_loop channel_map r.state.traffic_map sessions)
            s.db
            (after_stream e nas_ip sessions channel_map committed s r o).0.db
    unfolding after_stream nas_failed result
    after_stream-Adds committed s r (some x) = inl refl
    after_stream-Adds committed s r none =
        let t : State = record s { events = observe_flow_size r.size ∷ s.events } in
        elim (Bool-cases (has_new_file r.names committed)) [
          | inl h ↦ rw h (after_result-Adds r.names t (result r.state))
          | inr h ↦ rw h (inl (clean-chunk e nas_ip t))
        ]

    module _ (n : Net) where
      -- What a run streams, if its checkpoint is `committed`.
      abbrev pub streamed_traffic : Map Text Bool → NasDir → TrafficMap
      streamed_traffic committed d =
          (prepare_and_stream e.files (accumulate_line n) committed
            (new_flow_accumulator channel_map) d).1.state.traffic_map

      after_load-Adds :
          (s : State) (committed : Map Text Bool)
          → Adds
              (sift_loop channel_map (streamed_traffic committed s.dir) sessions)
              s.db
              (after_load e nas_ip sessions channel_map n s (ok committed)).0.db
      unfolding after_load
      after_load-Adds s committed =
          let r =
            prepare_and_stream e.files (accumulate_line n) committed
              (new_flow_accumulator channel_map) s.dir in
          after_stream-Adds committed (record s { dir = r.0 }) r.1 r.1.error

      -- A run of `Aggregate` that has loaded its checkpoint leaves the table of chunks as it was, or
      -- adds to it exactly the chunks that sifting makes of the traffic which it has streamed from
      -- the files that are not in the checkpoint, whatever fails in it.
      pub aggregate-Adds :
          (s : State) (committed : Map Text Bool)
          → load_names e nas_ip s.db ≡ ok committed
          → Adds
              (sift_loop channel_map (streamed_traffic committed s.dir) sessions)
              s.db
              (aggregate e nas_ip sessions channel_map n s).0.db
      unfolding aggregate
      aggregate-Adds s committed h = rw (h, after_load) (after_load-Adds s committed)
