-- ===== src/Metrics/Record.antt =====
-- src/tools/metrics/record.go over the Prometheus client library, which is the argument `Client`.
use aggregator_demo.Base.{ℕ, Bool, true, false, Option, none, some, List, if◌then◌else◌}
use aggregator_demo.Base.Word.{Int64}
use aggregator_demo.Base.Text.{Text}
use aggregator_demo.Entity.{Outcome, done, panic}
use aggregator_demo.Metrics.{
  Phase, NasPhase, Event, inc_nas, inc_nas_error, observe_flow_size, add_chunks_saved,
  add_accounted_traffic, inc_cycle_error, set_nas_discovered, set_cycle_in_progress,
  set_last_success, inc_worker_panic,
}
use aggregator_demo.Metrics.Labels.{
  cycle_err_reason, phase, nas_result, nas_stage, nas_phase, direction,
}

-- The client library: a single metric, and a vector of them by the value of one label.
-- `update v l f` is `WithLabelValues` with a call on the metric that it returns, and `series` the
-- labels for which the vector exports a metric. `add_panics` says of which values `Counter.Add`
-- panics.
pub record Client : Type 1 where
  pub Float : Type 0
  pub Metric : Type 0
  pub Vec : Type 0
  pub of_count : ℕ → Float
  pub of_int : Int64 → Float
  pub new_metric : Metric
  pub set : Float → Metric → Metric
  pub inc : Metric → Metric
  pub add : Float → Metric → Metric
  pub observe : Float → Metric → Metric
  pub add_panics : Float → Bool
  pub new_vec : Vec
  pub update : Vec → Text → (Metric → Metric) → Vec
  pub series : Vec → List Text

-- `Metrics`, without its logger and its registry.
pub record Metrics (c : Client) : Type 0 where
  pub build_info : c.Vec
  pub cycle_duration : c.Metric
  pub last_cycle_duration : c.Metric
  pub cycle_in_progress : c.Metric
  pub last_success : c.Metric
  pub cycle_errors : c.Vec
  pub nas_discovered : c.Metric
  pub phase_duration : c.Vec
  pub nas_processed : c.Vec
  pub nas_errors : c.Vec
  pub nas_phase_duration : c.Vec
  pub chunks_saved : c.Metric
  pub flow_size : c.Metric
  pub accounted_traffic : c.Vec
  pub worker_panics : c.Metric
  pub pool_size : c.Metric

-- A call of a method of `Metrics`; durations in seconds.
pub data Call (c : Client) : Type 0 where
  observe_cycle : c.Float → Call c
  set_last_cycle_duration : c.Float → Call c
  observe_phase : Phase → c.Float → Call c
  observe_nas_phase : NasPhase → c.Float → Call c
  set_pool_size : ℕ → Call c
  event : Event → Call c

module _ (c : Client) where
  -- `Add` on a counter; `WithLabelValues` comes first, and creates the series if `Add` panics.
  unfoldable pub added : c.Float → c.Metric → c.Metric
  added x m = if c.add_panics x then m else c.add x m

  unfoldable pub ended_by : Bool → Outcome (Unit {0})
  ended_by true = panic
  ended_by false = done tt

  -- The methods that the aggregator calls as events; `now` is the time in seconds.
  unfoldable pub recorded : c.Float → Event → Metrics c → Metrics c × Outcome (Unit {0})
  unfolding added ended_by
  recorded now (inc_nas r) m =
      (record m { nas_processed = c.update m.nas_processed (nas_result r) c.inc }, done tt)
  recorded now (inc_nas_error s) m =
      (record m { nas_errors = c.update m.nas_errors (nas_stage s) c.inc }, done tt)
  recorded now (observe_flow_size n) m =
      (record m { flow_size = c.observe (c.of_count n) m.flow_size }, done tt)
  recorded now (add_chunks_saved n) m = (
    record m { chunks_saved = added (c.of_count n) m.chunks_saved },
    ended_by (c.add_panics (c.of_count n)),
  )
  recorded now (add_accounted_traffic d n) m = (
    record m {
      accounted_traffic = c.update m.accounted_traffic (direction d) (added (c.of_int n));
    },
    ended_by (c.add_panics (c.of_int n)),
  )
  recorded now (inc_cycle_error r) m =
      (record m { cycle_errors = c.update m.cycle_errors (cycle_err_reason r) c.inc }, done tt)
  recorded now (set_nas_discovered n) m =
      (record m { nas_discovered = c.set (c.of_count n) m.nas_discovered }, done tt)
  recorded now (set_cycle_in_progress b) m = (
    record m { cycle_in_progress = c.set (c.of_count (if b then 1 else 0)) m.cycle_in_progress },
    done tt,
  )
  recorded now set_last_success m = (record m { last_success = c.set now m.last_success }, done tt)
  recorded now inc_worker_panic m = (record m { worker_panics = c.inc m.worker_panics }, done tt)

  unfoldable pub called : c.Float → Call c → Metrics c → Metrics c × Outcome (Unit {0})
  unfolding recorded
  called now (observe_cycle s) m =
      (record m { cycle_duration = c.observe s m.cycle_duration }, done tt)
  called now (set_last_cycle_duration s) m =
      (record m { last_cycle_duration = c.set s m.last_cycle_duration }, done tt)
  called now (observe_phase p s) m =
      (record m { phase_duration = c.update m.phase_duration (phase p) (c.observe s) }, done tt)
  called now (observe_nas_phase p s) m = (
    record m { nas_phase_duration = c.update m.nas_phase_duration (nas_phase p) (c.observe s) },
    done tt,
  )
  called now (set_pool_size n) m =
      (record m { pool_size = c.set (c.of_count n) m.pool_size }, done tt)
  called now (event x) m = recorded now x m

  -- A call on a nil receiver does nothing.
  unfoldable pub called_on :
      c.Float → Call c → Option (Metrics c) → Option (Metrics c) × Outcome (Unit {0})
  unfolding called
  called_on now x none = (none, done tt)
  called_on now x (some m) = let r = called now x m in (some r.0, r.1)
