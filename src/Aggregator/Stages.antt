-- ===== src/Aggregator/Stages.antt =====
-- `Aggregate`, stage by stage. A worker reads and changes its own directory, the database, and the
-- metrics; the last call stands first in `events`.
use aggregator_demo.Base.{
  Bool, true, false, not, Option, none, some, List, [], ◌∷◌, if◌then◌else◌, any, length, text_eq,
}
use aggregator_demo.Base.Word.{Int64, add64}
use aggregator_demo.Base.Text.{Text}
use aggregator_demo.Base.Map.{Map, get_or}
use aggregator_demo.Entity.{
  Error, no_data, OnlineSession, Chunk, Result, ok, err, Outcome, done, panic,
}
use aggregator_demo.Traffic.{
  Net, ChannelMap, TrafficMap, FlowAccumulator, new_flow_accumulator, accumulate_line, result,
  sift_traffic,
}
use aggregator_demo.Metrics.{
  success, no_new, no_internal, unrecognized, failure, NasStage, checkpoint, prepare, parse, sift,
  save, Direction, download, upload, Event, inc_nas, inc_nas_error, observe_flow_size,
  add_chunks_saved, add_accounted_traffic,
}
use aggregator_demo.Database.{Db}
use aggregator_demo.Storage.{NasDir, Streamed}
use aggregator_demo.Flow.{prepare_and_stream}
use aggregator_demo.Aggregator.Save.{
  Env, load_names, save_chunk_list_with_checkpoint, remove_old_flow,
}

pub record State : Type 0 where
  pub dir : NasDir
  pub db : Db
  pub events : List Event

abbrev pub record_event : Event → State → State
record_event x s = record s { events = x ∷ s.events }

-- `nasFailed`
unfoldable pub nas_failed : NasStage → State → State
nas_failed stage s = record_event (inc_nas failure) (record_event (inc_nas_error stage) s)

-- `hasNewFile`
unfoldable pub has_new_file : List Text → Map Text Bool → Bool
has_new_file names committed = any (λ name. not (get_or name committed false)) names

module _ (e : Env) (nas_ip : Text) where
  unfoldable pub clean : State → State
  clean s = let r = remove_old_flow e nas_ip s.dir s.db in record s { dir = r.0; db = r.1 }

  -- The sums of `accountTraffic`, which wrap.
  unfoldable pub sum_traffic : (Chunk → Int64) → Int64 → List Chunk → Int64
  sum_traffic field acc [] = acc
  sum_traffic field acc (c ∷ chunks) = sum_traffic field (add64 acc (field c)) chunks

  -- `Counter.Add`, which may panic and then ends the worker.
  unfoldable pub charged : Direction → Int64 → State → Bool → State × Outcome (Unit {0})
  charged d x s true = (s, panic)
  charged d x s false = (record_event (add_accounted_traffic d x) s, done tt)

  unfoldable pub and_charged :
      Direction → Int64 → State × Outcome (Unit {0}) → State × Outcome (Unit {0})
  unfolding charged
  and_charged d x (s, panic) = (s, panic)
  and_charged d x (s, done _) = charged d x s (e.counter_panics x)

  -- `accountTraffic`
  unfoldable pub account_traffic : List Chunk → State → State × Outcome (Unit {0})
  unfolding sum_traffic and_charged
  account_traffic chunks s =
      let down = sum_traffic (λ c. c.download) 0 chunks in
      let up = sum_traffic (λ c. c.upload) 0 chunks in
      and_charged upload up (and_charged download down (s, done tt))

  -- From `commitChunks` to the end.
  unfoldable pub after_commit : List Chunk → State → Db × Option Error → State
  after_commit chunks s (db, some x) = nas_failed save (record s { db = db })
  after_commit chunks s (db, none) = clean (
      record_event (inc_nas success)
        (record_event (add_chunks_saved (length chunks)) (record s { db = db })))

  unfoldable pub commit_chunks : List Chunk → List Text → State → State
  commit_chunks chunks names s =
      after_commit chunks s (save_chunk_list_with_checkpoint e nas_ip chunks names s.db)

  unfoldable pub after_account :
      List Chunk → List Text → State × Outcome (Unit {0}) → State × Outcome (Unit {0})
  after_account chunks names (s, panic) = (s, panic)
  after_account chunks names (s, done _) = (commit_chunks chunks names s, done tt)

  unfoldable pub after_sift :
      List Text → State → Outcome (List Chunk × Option Error) → State × Outcome (Unit {0})
  after_sift names s panic = (s, panic)
  after_sift names s (done (chunks, none)) = after_account chunks names (account_traffic chunks s)
  after_sift names s (done (chunks, some no_data)) = (nas_failed sift (clean s), done tt)
  after_sift names s (done (chunks, some x)) = (nas_failed sift s, done tt)

  module _ (sessions : List OnlineSession) (channel_map : ChannelMap) where
    unfoldable pub after_result :
        List Text → State → TrafficMap × Option Error → State × Outcome (Unit {0})
    after_result names s (traffic_map, none) =
        after_sift names s (sift_traffic channel_map traffic_map sessions)
    after_result names s (traffic_map, some no_data) =
        (record_event (inc_nas no_internal) (clean s), done tt)
    after_result names s (traffic_map, some x) =
        (record_event (inc_nas unrecognized) (record_event (inc_nas_error parse) s), done tt)

    unfoldable pub after_stream :
        Map Text Bool → State → Streamed FlowAccumulator → Option Error → State × Outcome (Unit {0})
    after_stream committed s r (some x) = (nas_failed prepare s, done tt)
    after_stream committed s r none =
        let t = record_event (observe_flow_size r.size) s in
        if has_new_file r.names committed
        then after_result r.names t (result r.state)
        else (record_event (inc_nas no_new) (clean t), done tt)

    module _ (n : Net) where
      unfoldable pub after_load : State → Result (Map Text Bool) → State × Outcome (Unit {0})
      after_load s (err x) = (nas_failed checkpoint s, done tt)
      after_load s (ok committed) =
          let r =
            prepare_and_stream e.files (accumulate_line n) committed
              (new_flow_accumulator channel_map) s.dir in
          after_stream committed (record s { dir = r.0 }) r.1 r.1.error

      -- `Aggregate`
      unfoldable pub aggregate : State → State × Outcome (Unit {0})
      unfolding clean account_traffic after_commit commit_chunks after_account after_sift
          after_result after_stream after_load nas_failed
      aggregate s = after_load s (load_names e nas_ip s.db)
