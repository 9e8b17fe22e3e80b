-- ===== src/Aggregator/Settled.antt =====
-- A run of `Aggregate` in which no call fails, on a directory into which a flow file has come. What
-- earlier runs have left in `tmp` and in the checkpoint is arbitrary.
use aggregator_demo.Base.{
  ◌≡◌, refl, ◌∙◌, Bool, true, Bool-cases, inl, inr, Option, none, some, List, [], ◌∷◌, arith,
  text_eq,
}
use aggregator_demo.Base.Text.{Text}
use aggregator_demo.Base.Map.{Map, lookup, NodupKeys}
use aggregator_demo.Entity.{Error, no_data, OnlineSession, Chunk, ok, Outcome, done}
use aggregator_demo.Traffic.{
  Net, ChannelMap, TrafficMap, FlowAccumulator, new_flow_accumulator, accumulate_line, result,
  sift_loop, log_no_data, sifted, sift_traffic,
}
use aggregator_demo.Metrics.{NasResult, success, observe_flow_size, inc_nas_error, sift, parse}
use aggregator_demo.Database.{
  BatchRow, Db, answer, committed_names, name_set, load_committed_file_names,
}
use aggregator_demo.Gensql.{select_rows}
use aggregator_demo.Storage.{NasDir, no_faults, Streamed}
use aggregator_demo.Storage.Lookup.{is_flow_name}
use aggregator_demo.Storage.Complete.{is_file}
use aggregator_demo.Storage.Ready.{IsReady}
use aggregator_demo.Flow.{prepare_and_stream}
use aggregator_demo.Flow.Gathered.{prepare_and_stream-IsStreamed}
use aggregator_demo.Aggregator.Save.{load_names, opened}
use aggregator_demo.Aggregator.Stages.{
  State, record_event, nas_failed, has_new_file, clean, account_traffic, after_account, after_sift,
  after_result, after_stream, after_load, aggregate,
}
use aggregator_demo.Aggregator.Healthy.{healthy, rows_at}
use aggregator_demo.Aggregator.Ends.{
  outcome_of, Settles, Gathered, clean-same, account_traffic-healthy, commit_chunks-Settles,
}

names-loaded :
    (rows : List BatchRow)
    → committed_names (select_rows (answer none rows)) ≡ ok (name_set [] rows)
unfolding committed_names select_rows answer name_set
names-loaded [] = refl
names-loaded (r ∷ rows) = refl

module _ (nas_ip : Text) (from : State) where
  after_account-Settles :
      (chunks : List Chunk) (names : List Text) (s : State) (r : State × Outcome (Unit {0}))
      → (t : State) × ((r ≡ (t, done tt)) × (t.dir ≡ s.dir) × (t.db ≡ s.db))
      → Gathered nas_ip chunks from s
      → Settles nas_ip success chunks from (after_account healthy nas_ip chunks names r)
  unfolding after_account
  after_account-Settles chunks names s r (t, (e, d, b)) g = rw e (
      commit_chunks-Settles nas_ip chunks from names t (record {
        emptied = λ j f. rw d (g.emptied j f);
        gathered = λ j f h. rw d (g.gathered j f h);
        same = b ∙ g.same;
      }))

  after_sift-Settles :
      (chunks : List Chunk) (names : List Text) (s : State) (sess : OnlineSession)
      (rest : List OnlineSession)
      → Gathered nas_ip chunks from s
      → Settles nas_ip
          (outcome_of true none chunks)
          chunks
          from
          (after_sift healthy nas_ip names s (sifted (sess ∷ rest) chunks))
  unfolding sifted log_no_data after_sift nas_failed
  after_sift-Settles [] names s sess rest g = record {
    returns = refl;
    before = inc_nas_error sift ∷ (clean healthy nas_ip s).events;
    recorded = refl;
    ends = clean-same nas_ip [] from s g;
  }
  after_sift-Settles (c ∷ chunks) names s sess rest g =
      after_account-Settles (c ∷ chunks) names s (account_traffic healthy nas_ip (c ∷ chunks) s)
        (account_traffic-healthy nas_ip (c ∷ chunks) from s) g

  module _ (sess : OnlineSession) (rest : List OnlineSession) (channel_map : ChannelMap) where
    after_result-Settles :
        (names : List Text) (s : State) (r : TrafficMap × Option Error)
        → let chunks = sift_loop channel_map r.0 (sess ∷ rest) in
          Gathered nas_ip chunks from s
          → Settles nas_ip
              (outcome_of true r.1 chunks)
              chunks
              from
              (after_result healthy nas_ip (sess ∷ rest) channel_map names s r)
    unfolding after_result sift_traffic
    after_result-Settles names s (m, none) g =
        after_sift-Settles (sift_loop channel_map m (sess ∷ rest)) names s sess rest g
    after_result-Settles names s (m, some no_data) g = record {
      returns = refl;
      before = (clean healthy nas_ip s).events;
      recorded = refl;
      ends = clean-same nas_ip (sift_loop channel_map m (sess ∷ rest)) from s g;
    }
    after_result-Settles names s (m, some x) g = record {
      returns = refl;
      before = inc_nas_error parse ∷ s.events;
      recorded = refl;
      ends = record { gathered = g.gathered; same = g.same };
    }

    after_stream-Settles :
        (committed : Map Text Bool) (s : State) (r : Streamed FlowAccumulator) (o : Option Error)
        → o ≡ none
        → let chunks = sift_loop channel_map r.state.traffic_map (sess ∷ rest) in
          Gathered nas_ip chunks from s
          → Settles nas_ip
              (outcome_of (has_new_file r.names committed) (result r.state).1 chunks)
              chunks
              from
              (after_stream healthy nas_ip (sess ∷ rest) channel_map committed s r o)
    unfolding after_stream result
    after_stream-Settles committed s r (some x) h g = absurd (cc h)
    after_stream-Settles committed s r none h g =
        let t = record_event (observe_flow_size r.size) s in
        let chunks = sift_loop channel_map r.state.traffic_map (sess ∷ rest) in
        let g' : Gathered nas_ip chunks from t = record {
          emptied = g.emptied;
          gathered = g.gathered;
          same = g.same;
        } in
        elim (Bool-cases (has_new_file r.names committed)) [
          | inl new ↦ rw new (after_result-Settles r.names t (result r.state) g')
          | inr old ↦ rw old (record {
            returns = refl;
            before = (clean healthy nas_ip t).events;
            recorded = refl;
            ends = clean-same nas_ip chunks from t g';
          })
        ]

load_names-healthy :
    (nas_ip : Text) (db : Db) → load_names healthy nas_ip db ≡ ok (name_set [] (rows_at nas_ip db))
unfolding load_names opened load_committed_file_names name_set
load_names-healthy nas_ip db = names-loaded (rows_at nas_ip db)

pub accumulate_line-quiet :
    (n : Net) (a : FlowAccumulator) (text : Text) → (accumulate_line n a text).1 ≡ none
unfolding accumulate_line
accumulate_line-quiet n a text = ground arith

module _ (nas_ip : Text) (sess : OnlineSession) (rest : List OnlineSession)
    (channel_map : ChannelMap) (n : Net) where
  -- What `StreamFlow` gives with the names of the checkpoint.
  abbrev pub stream_of : State → NasDir × Streamed FlowAccumulator
  stream_of s =
      prepare_and_stream no_faults (accumulate_line n) (name_set [] (rows_at nas_ip s.db))
        (new_flow_accumulator channel_map) s.dir

  abbrev pub chunks_for : State → List Chunk
  chunks_for s = sift_loop channel_map (stream_of s).1.state.traffic_map (sess ∷ rest)

  abbrev pub outcome_for : State → NasResult
  outcome_for s =
      outcome_of (has_new_file (stream_of s).1.names (name_set [] (rows_at nas_ip s.db)))
        (result (stream_of s).1.state).1 (chunks_for s)

  -- Once no call fails any more and the next flow file has come, a run of `Aggregate` with at least
  -- one session returns and finishes what earlier runs have left, whatever that is.
  -- It records the outcome that the files decide. If the lines are not recognized, each flow file
  -- waits in `tmp` and the database is as it was. In any other case no flow file and no row of the
  -- checkpoint of this directory is left; if a chunk was sifted for a new file all chunks are
  -- saved, and else the table of chunks is as it was. No entry stands twice, no file has a line that
  -- is too long, no directory has the name of a flow file, and the counters do not panic.
  pub aggregate-Settles :
      (s : State) (new : Text)
      → NodupKeys s.dir.entries
      → IsReady s.dir
      → is_flow_name new ≡ true
      → is_file (lookup new s.dir.entries) ≡ true
      → Settles nas_ip
          (outcome_for s)
          (chunks_for s)
          s
          (aggregate healthy nas_ip (sess ∷ rest) channel_map n s)
  unfolding aggregate after_load
  aggregate-Settles s new unique ready flow there =
      let r = stream_of s in
      let q =
        prepare_and_stream-IsStreamed (accumulate_line n) (accumulate_line-quiet n)
          (name_set [] (rows_at nas_ip s.db)) (new_flow_accumulator channel_map) s.dir unique ready
          new flow there in
      rw (load_names-healthy nas_ip s.db, after_load)
        (after_stream-Settles nas_ip s sess rest channel_map (name_set [] (rows_at nas_ip s.db))
          (record s { dir = r.0 }) r.1 r.1.error q.no_error
          (record { emptied = q.emptied; gathered = q.gathered; same = refl }))
