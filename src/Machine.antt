-- ===== src/Machine.antt =====
-- `Aggregate` as a machine whose steps are what other workers can come between: each step reads or
-- changes the database once, or changes the worker's own directory. The events are left out here.
pub mod Refines
pub mod Interleaved
pub mod Applied
pub mod Rows
pub mod Reading
pub mod Books
pub mod Fits
pub mod Steps
pub mod Exact
pub mod Lost
pub mod Sorted
pub mod Waiting
use aggregator_demo.Base.{
  ℕ, zero, suc, Bool, true, false, not, ◌||◌, Option, none, some, List, [], ◌∷◌, if◌then◌else◌,
  select, text_eq,
}
use aggregator_demo.Base.Text.{Text}
use aggregator_demo.Base.Map.{Map, get_or}
use aggregator_demo.Entity.{
  Error, no_data, OnlineSession, Chunk, Result, ok, err, Outcome, done, panic,
}
use aggregator_demo.Traffic.{
  Net, ChannelMap, TrafficMap, FlowAccumulator, new_flow_accumulator, accumulate_line, result,
  sift_traffic,
}
use aggregator_demo.Database.{Db}
use aggregator_demo.Storage.{NasDir, Streamed, remove_old}
use aggregator_demo.Flow.{prepare_and_stream}
use aggregator_demo.Aggregator.Save.{
  Env, load_names, save_chunk_list_with_checkpoint, remove_checkpoint,
}
use aggregator_demo.Aggregator.Stages.{has_new_file, sum_traffic}

-- Why a worker removes its files: each of them is counted, or the flow has no traffic to count.
pub data Reason : Type 0 where
  counted no_traffic : Reason

-- Where a worker stands. `loaded` has the checkpoint, and `saving` the names of the files that were
-- read, those of all files in `tmp`, and the chunks.
pub data Point : Type 0 where
  start : Point
  loaded : Map Text Bool → Point
  saving : List Text → List Text → List Chunk → Point
  cleaning : Reason → Point
  cleaned stopped : Point

pub record Local : Type 0 where
  pub point : Point
  pub dir : NasDir
  pub db : Db

abbrev pub local : Point → NasDir → Db → Local
local point dir db = record { point = point; dir = dir; db = db }

unfoldable pub load_point : Result (Map Text Bool) → Point
load_point (err x) = stopped
load_point (ok committed) = loaded committed

-- The names that are not in the checkpoint.
unfoldable pub unread : Map Text Bool → List Text → List Text
unread committed = select (λ name. not (get_or name committed false))

unfoldable pub commit_point : Option Error → Point
commit_point none = cleaning counted
commit_point (some x) = stopped

unfoldable pub clean_point : Option Error → Point
clean_point none = cleaned
clean_point (some x) = stopped

module _ (e : Env) (nas_ip : Text) where
  -- `accountTraffic` panics at one of its two counters.
  unfoldable pub account_panics : List Chunk → Bool
  unfolding sum_traffic
  account_panics chunks =
      e.counter_panics (sum_traffic e nas_ip (λ c. c.download) 0 chunks)
      || e.counter_panics (sum_traffic e nas_ip (λ c. c.upload) 0 chunks)

  unfoldable pub sift_point :
      Map Text Bool → List Text → Outcome (List Chunk × Option Error) → Point
  unfolding account_panics unread
  sift_point committed names panic = stopped
  sift_point committed names (done (chunks, none)) =
      if account_panics chunks then stopped else saving (unread committed names) names chunks
  sift_point committed names (done (chunks, some no_data)) = cleaning no_traffic
  sift_point committed names (done (chunks, some x)) = stopped

  module _ (sessions : List OnlineSession) (channel_map : ChannelMap) where
    unfoldable pub result_point : Map Text Bool → List Text → TrafficMap × Option Error → Point
    unfolding sift_point
    result_point committed names (traffic_map, none) =
        sift_point committed names (sift_traffic channel_map traffic_map sessions)
    result_point committed names (traffic_map, some no_data) = cleaning no_traffic
    result_point committed names (traffic_map, some x) = stopped

    unfoldable pub stream_point : Map Text Bool → Streamed FlowAccumulator → Option Error → Point
    unfolding result_point
    stream_point committed r (some x) = stopped
    stream_point committed r none =
        if has_new_file r.names committed
        then result_point committed r.names (result r.state)
        else cleaning counted

    module _ (n : Net) where
      unfoldable pub advance_at : Point → NasDir → Db → Local
      unfolding load_point stream_point commit_point clean_point
      advance_at start d db = local (load_point (load_names e nas_ip db)) d db
      advance_at (loaded committed) d db =
          let r =
            prepare_and_stream e.files (accumulate_line n) committed
              (new_flow_accumulator channel_map) d in
          local (stream_point committed r.1 r.1.error) r.0 db
      advance_at (saving fresh names chunks) d db =
          let r = save_chunk_list_with_checkpoint e nas_ip chunks names db in
          local (commit_point r.1) d r.0
      advance_at (cleaning reason) d db =
          let r = remove_old e.files d in local (clean_point r.1) r.0 db
      advance_at cleaned d db = local stopped d (remove_checkpoint e nas_ip db)
      advance_at stopped d db = local stopped d db

      unfoldable pub advance : Local → Local
      unfolding advance_at
      advance l = advance_at l.point l.dir l.db

      unfoldable pub run : ℕ → Local → Local
      unfolding advance
      run zero l = l
      run (suc k) l = run k (advance l)
