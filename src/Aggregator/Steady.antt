-- ===== src/Aggregator/Steady.antt =====
-- The invariant of the checkpoint, stage by stage of `Aggregate`.
use aggregator_demo.Base.{
  ℕ, ◌≡◌, refl, Bool, true, false, Option, none, some, List, ◌∷◌, arith, All, Bool-cases, inl, inr,
}
use aggregator_demo.Base.Text.{Text}
use aggregator_demo.Base.Map.{Map}
use aggregator_demo.Entity.{
  Error, no_data, OnlineSession, Chunk, Result, ok, err, Outcome, done, panic,
}
use aggregator_demo.Traffic.{
  Net, ChannelMap, TrafficMap, FlowAccumulator, new_flow_accumulator, accumulate_line, result,
  sift_traffic,
}
use aggregator_demo.Metrics.{observe_flow_size, Direction, download, upload}
use aggregator_demo.Database.{Db}
use aggregator_demo.Storage.{NasDir, Streamed, remove_old}
use aggregator_demo.Storage.Lookup.{tmp_has, is_flow_name, Moved}
use aggregator_demo.Storage.Stream.{Cleaned, remove_old-Cleaned}
use aggregator_demo.Flow.{prepare_and_stream}
use aggregator_demo.Flow.Moves.{prepare_and_stream-keeps, prepare_and_stream-names}
use aggregator_demo.Aggregator.Save.{
  Env, load_names, save_chunk_list_with_checkpoint, after_files, remove_old_flow,
}
use aggregator_demo.Aggregator.Stages.{
  State, nas_failed, has_new_file, clean, charged, and_charged, account_traffic, after_commit,
  commit_chunks, after_account, after_sift, after_result, after_stream, after_load, aggregate,
}
use aggregator_demo.Aggregator.Guard.{IsGuarded, IsGuarded-Moved}
use aggregator_demo.Aggregator.Once.{Guarded, Guarded-save, Guarded-remove_checkpoint}

module _ (others : Text → NasDir) (nas_ip : Text) where
  -- The invariant of a state of the worker.
  abbrev pub IsSteady : State → Type 0
  IsSteady s = Guarded others nas_ip s.dir s.db

  pub Guarded-Moved :
      (db : Db) (d d' : NasDir)
      → Moved d d'
      → Guarded others nas_ip d db
      → Guarded others nas_ip d' db
  Guarded-Moved db d d' m g = record {
    own = IsGuarded-Moved nas_ip db d d' m g.own;
    rest = g.rest;
    once = g.once;
  }

  pub IsGuarded-Cleaned :
      (db : Db) (d : NasDir) (r : NasDir × Option Error)
      → Cleaned d r
      → IsGuarded nas_ip d db
      → IsGuarded nas_ip r.0 db
  IsGuarded-Cleaned db d r c g = record {
    waiting = λ f h. g.waiting f (rw c.entries at h);
    marked = λ f k h p. g.marked f k (c.tmp f h k) p;
    apart = λ f k h. ground (arith, g.apart f k (rw c.entries at h), c.tmp f);
  }

  module _ (e : Env) where
    Guarded-after_files :
        (db : Db) (d : NasDir) (r : NasDir × Option Error)
        → Cleaned d r
        → Guarded others nas_ip d db
        → Guarded others nas_ip (after_files e nas_ip db r).0 (after_files e nas_ip db r).1
    unfolding after_files
    Guarded-after_files db d (d', some x) c g = record {
      own = IsGuarded-Cleaned db d (d', some x) c g.own;
      rest = g.rest;
      once = g.once;
    }
    Guarded-after_files db d (d', none) c g =
        Guarded-remove_checkpoint others nas_ip d' e db (λ f k. c.empty refl f k)
          (record { own = IsGuarded-Cleaned db d (d', none) c g.own; rest = g.rest; once = g.once })

    clean-IsSteady : (s : State) → IsSteady s → IsSteady (clean e nas_ip s)
    unfolding clean remove_old_flow
    clean-IsSteady s g =
        Guarded-after_files s.db s.dir (remove_old e.files s.dir) (remove_old-Cleaned e.files s.dir)
          g

    abbrev Ready : List Text → State → Type 0
    Ready names s = All (λ f. (tmp_has f s.dir ≡ true) × (is_flow_name f ≡ true)) names × IsSteady s

    charged-Ready :
        (names : List Text) (d : Direction) (x : ℕ) (s : State) (b : Bool)
        → Ready names s
        → Ready names (charged e nas_ip d x s b).0
    unfolding charged
    charged-Ready names d x s true g = g
    charged-Ready names d x s false g = g

    and_charged-Ready :
        (names : List Text) (d : Direction) (x : ℕ) (r : State × Outcome (Unit {0}))
        → Ready names r.0
        → Ready names (and_charged e nas_ip d x r).0
    unfolding and_charged
    and_charged-Ready names d x (s, panic) g = g
    and_charged-Ready names d x (s, done _) g = charged-Ready names d x s (e.counter_panics x) g

    account_traffic-Ready :
        (names : List Text) (chunks : List Chunk) (s : State)
        → Ready names s
        → Ready names (account_traffic e nas_ip chunks s).0
    unfolding account_traffic
    account_traffic-Ready names chunks s g =
        and_charged-Ready names upload _ _ (and_charged-Ready names download _ (s, done tt) g)

    after_commit-IsSteady :
        (chunks : List Chunk) (s : State) (r : Db × Option Error)
        → Guarded others nas_ip s.dir r.0
        → IsSteady (after_commit e nas_ip chunks s r)
    unfolding after_commit nas_failed
    after_commit-IsSteady chunks s (db, some x) g = g
    after_commit-IsSteady chunks s (db, none) g = clean-IsSteady _ g

    commit_chunks-IsSteady :
        (chunks : List Chunk) (names : List Text) (s : State)
        → Ready names s
        → IsSteady (commit_chunks e nas_ip chunks names s)
    unfolding commit_chunks
    commit_chunks-IsSteady chunks names s (h, g) =
        after_commit-IsSteady chunks s (save_chunk_list_with_checkpoint e nas_ip chunks names s.db)
          (Guarded-save others nas_ip s.dir e chunks names s.db h g)

    after_account-IsSteady :
        (chunks : List Chunk) (names : List Text) (r : State × Outcome (Unit {0}))
        → Ready names r.0
        → IsSteady (after_account e nas_ip chunks names r).0
    unfolding after_account
    after_account-IsSteady chunks names (s, panic) g = g.1
    after_account-IsSteady chunks names (s, done _) g = commit_chunks-IsSteady chunks names s g

    after_sift-IsSteady :
        (names : List Text) (s : State) (o : Outcome (List Chunk × Option Error))
        → Ready names s
        → IsSteady (after_sift e nas_ip names s o).0
    unfolding after_sift nas_failed
    after_sift-IsSteady names s panic g = g.1
    after_sift-IsSteady names s (done (chunks, none)) g =
        after_account-IsSteady chunks names (account_traffic e nas_ip chunks s)
          (account_traffic-Ready names chunks s g)
    after_sift-IsSteady names s (done (chunks, some no_data)) g = clean-IsSteady s g.1
    after_sift-IsSteady names s (done (chunks, some x)) g = g.1

    module _ (sessions : List OnlineSession) (channel_map : ChannelMap) where
      after_result-IsSteady :
          (names : List Text) (s : State) (r : TrafficMap × Option Error)
          → Ready names s
          → IsSteady (after_result e nas_ip sessions channel_map names s r).0
      unfolding after_result
      after_result-IsSteady names s (m, none) g =
          after_sift-IsSteady names s (sift_traffic channel_map m sessions) g
      after_result-IsSteady names s (m, some no_data) g = clean-IsSteady s g.1
      after_result-IsSteady names s (m, some x) g = g.1

      after_stream-IsSteady :
          (committed : Map Text Bool) (s : State) (r : Streamed FlowAccumulator) (o : Option Error)
          → Ready r.names s
          → IsSteady (after_stream e nas_ip sessions channel_map committed s r o).0
      unfolding after_stream nas_failed
      after_stream-IsSteady committed s r (some x) g = g.1
      after_stream-IsSteady committed s r none g =
          let t = record s { events = observe_flow_size r.size ∷ s.events } in
          elim (Bool-cases (has_new_file r.names committed)) [
            | inl h ↦ rw h (after_result-IsSteady r.names t (result r.state) g)
            | inr h ↦ rw h (clean-IsSteady t g.1)
          ]

      module _ (n : Net) where
        after_load-IsSteady :
            (s : State) (r : Result (Map Text Bool))
            → IsSteady s
            → IsSteady (after_load e nas_ip sessions channel_map n s r).0
        unfolding after_load nas_failed
        after_load-IsSteady s (err x) g = g
        after_load-IsSteady s (ok committed) g =
            let start = new_flow_accumulator channel_map in
            let r = prepare_and_stream e.files (accumulate_line n) committed start s.dir in
            after_stream-IsSteady committed (record s { dir = r.0 }) r.1 r.1.error
              (
                prepare_and_stream-names e.files (accumulate_line n) committed start s.dir,
                prepare_and_stream-keeps e.files (accumulate_line n)
                    (λ d. Guarded others nas_ip d s.db) (Guarded-Moved s.db) committed start s.dir
                    g,
              )

        -- A run of `Aggregate` keeps the invariant of the checkpoint, whatever fails in it: a
        -- file that waits has no row in the log, a flow file in `tmp` that has one is in the
        -- checkpoint, no flow file is in both places, and no row was ever inserted twice.
        pub aggregate-IsSteady :
            (s : State) → IsSteady s → IsSteady (aggregate e nas_ip sessions channel_map n s).0
        unfolding aggregate
        aggregate-IsSteady s g = after_load-IsSteady s (load_names e nas_ip s.db) g
