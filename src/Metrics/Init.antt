-- ===== src/Metrics/Init.antt =====
-- `New` of src/tools/metrics/metrics.go: the metrics, their registration and the series that exist from
-- the start. The names of the metrics are kept, not their help texts and buckets.
use aggregator_demo.Base.{
  Bool, true, false, Option, none, some, List, [], ◌∷◌, ◌++◌, map, text_eq, nat_eq,
}
use aggregator_demo.Base.Text.{Text, codes}
use aggregator_demo.Entity.{Error}
use aggregator_demo.Metrics.Labels.{
  all_cycle_err_reasons, all_phases, all_nas_results, all_nas_stages, all_nas_phases,
  all_directions, cycle_err_reason, phase, nas_result, nas_stage, nas_phase, direction,
}
use aggregator_demo.Metrics.Record.{Client, Metrics}

-- A collector by the name of its metric; those of the client library have names of their own.
abbrev pub Collector : Type 0
Collector = Text

-- `initCycleMetrics`, `initNASMetrics`, `initStaticMetrics`
abbrev pub init_cycle_metrics : List Collector
init_cycle_metrics =
    codes "aggregator_cycle_duration_seconds"
    ∷ codes "aggregator_last_cycle_duration_seconds"
    ∷ codes "aggregator_cycle_in_progress"
    ∷ codes "aggregator_last_success_timestamp_seconds"
    ∷ codes "aggregator_cycle_errors_total"
    ∷ codes "aggregator_nas_discovered"
    ∷ codes "aggregator_phase_duration_seconds"
    ∷ []

abbrev pub init_nas_metrics : List Collector
init_nas_metrics =
    codes "aggregator_nas_processed_total"
    ∷ codes "aggregator_nas_errors_total"
    ∷ codes "aggregator_nas_phase_duration_seconds"
    ∷ codes "aggregator_chunks_saved_total"
    ∷ codes "aggregator_flow_size_bytes"
    ∷ codes "aggregator_accounted_traffic_bytes_total"
    ∷ []

abbrev pub init_static_metrics : List Collector
init_static_metrics =
    codes "aggregator_worker_panics_total"
    ∷ codes "aggregator_pool_size"
    ∷ codes "aggregator_build_info"
    ∷ []

abbrev pub library_collectors : List Collector
library_collectors = codes "go" ∷ codes "build_info" ∷ codes "process" ∷ []

abbrev pub db_collectors : Bool → List Collector
db_collectors true = codes "db_stats" ∷ []
db_collectors false = []

-- The list that `New` registers; the database may be nil.
abbrev pub collector_list : Bool → List Collector
collector_list has_db =
    init_cycle_metrics
    ++ init_nas_metrics
    ++ init_static_metrics
    ++ library_collectors
    ++ db_collectors has_db

-- What a registry holds, and the errors that were logged.
pub record Registry : Type 0 where
  pub held : List Collector
  pub logged : List Error

-- One call of `Register`, whose error is only logged. `answer` is that of the library.
unfoldable pub registered : Collector → Registry → Option Error → Registry
registered x r none = record r { held = r.held ++ x ∷ [] }
registered x r (some e) = record r { logged = r.logged ++ e ∷ [] }

-- `register`
unfoldable pub register :
    (List Collector → Collector → Option Error) → List Collector → Registry → Registry
unfolding registered
register answer [] r = r
register answer (x ∷ xs) r = register answer xs (registered x r (answer r.held x))

abbrev pub default_version : Text
default_version = codes "dev"

unfoldable pub version_or_default : Text → Text
version_or_default [] = default_version
version_or_default (b ∷ bytes) = b ∷ bytes

module _ (c : Client) where
  -- A loop of `preinit` over the label values of a vector.
  unfoldable pub with_labels : c.Vec → List Text → c.Vec
  with_labels v [] = v
  with_labels v (l ∷ labels) = with_labels (c.update v l (λ m. m)) labels

  unfoldable pub preinit : Metrics c → Metrics c
  unfolding with_labels
  preinit m = record m {
    cycle_errors = with_labels m.cycle_errors (map cycle_err_reason all_cycle_err_reasons);
    phase_duration = with_labels m.phase_duration (map phase all_phases);
    nas_processed = with_labels m.nas_processed (map nas_result all_nas_results);
    nas_errors = with_labels m.nas_errors (map nas_stage all_nas_stages);
    nas_phase_duration = with_labels m.nas_phase_duration (map nas_phase all_nas_phases);
    accounted_traffic = with_labels m.accounted_traffic (map direction all_directions);
  }

  -- The metrics as the three init functions make them.
  abbrev pub new_metrics : Metrics c
  new_metrics = record {
    build_info = c.new_vec;
    cycle_duration = c.new_metric;
    last_cycle_duration = c.new_metric;
    cycle_in_progress = c.new_metric;
    last_success = c.new_metric;
    cycle_errors = c.new_vec;
    nas_discovered = c.new_metric;
    phase_duration = c.new_vec;
    nas_processed = c.new_vec;
    nas_errors = c.new_vec;
    nas_phase_duration = c.new_vec;
    chunks_saved = c.new_metric;
    flow_size = c.new_metric;
    accounted_traffic = c.new_vec;
    worker_panics = c.new_metric;
    pool_size = c.new_metric;
  }

  -- `New`
  unfoldable pub new :
      (List Collector → Collector → Option Error) → Text → Bool → Metrics c × Registry
  unfolding preinit register version_or_default
  new answer version has_db = (
    preinit (record new_metrics {
      build_info = c.update c.new_vec (version_or_default version) (c.set (c.of_count 1));
    }),
    register answer (collector_list has_db) (record { held = []; logged = [] }),
  )
