-- ===== src/Metrics.antt =====
-- src/tools/metrics/labels.go, and the calls of record.go that the aggregator makes: the values of
-- the labels, and what is recorded, call by call, the last one first.
pub mod Labels
pub mod Record
pub mod Init
pub mod Registered
use aggregator_demo.Base.{ℕ, Bool, List}
use aggregator_demo.Base.Word.{Int64}

pub data CycleErrReason : Type 0 where
  dirs_read nil_maps : CycleErrReason

pub data Phase : Type 0 where
  read_dirs load_channels load_sessions : Phase

pub data NasResult : Type 0 where
  success no_new no_internal unrecognized failure : NasResult

pub data NasStage : Type 0 where
  checkpoint prepare parse sift save : NasStage

pub data NasPhase : Type 0 where
  stream_flow sift_traffic save_chunks : NasPhase

pub data Direction : Type 0 where
  download upload : Direction

-- A call that changes a metric. Durations are left out.
pub data Event : Type 0 where
  inc_nas : NasResult → Event
  inc_nas_error : NasStage → Event
  observe_flow_size : ℕ → Event
  add_chunks_saved : ℕ → Event
  add_accounted_traffic : Direction → Int64 → Event
  inc_cycle_error : CycleErrReason → Event
  set_nas_discovered : ℕ → Event
  set_cycle_in_progress : Bool → Event
  set_last_success : Event
  inc_worker_panic : Event
