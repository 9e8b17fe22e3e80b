-- ===== src/Metrics/Labels.antt =====
-- The values of the labels, and the lists of all of them, from which `preinit` creates every series.
use aggregator_demo.Base.Text.{Text, codes}
use aggregator_demo.Base.{List, [], ◌∷◌}
use aggregator_demo.Metrics.{
  CycleErrReason, dirs_read, nil_maps, Phase, read_dirs, load_channels, load_sessions, NasResult,
  success, no_new, no_internal, unrecognized, failure, NasStage, checkpoint, prepare, parse, sift,
  save, NasPhase, stream_flow, sift_traffic, save_chunks, Direction, download, upload,
}

abbrev pub all_cycle_err_reasons : List CycleErrReason
all_cycle_err_reasons = dirs_read ∷ nil_maps ∷ []

abbrev pub all_phases : List Phase
all_phases = read_dirs ∷ load_channels ∷ load_sessions ∷ []

abbrev pub all_nas_results : List NasResult
all_nas_results = success ∷ no_new ∷ no_internal ∷ unrecognized ∷ failure ∷ []

abbrev pub all_nas_stages : List NasStage
all_nas_stages = checkpoint ∷ prepare ∷ parse ∷ sift ∷ save ∷ []

abbrev pub all_nas_phases : List NasPhase
all_nas_phases = stream_flow ∷ sift_traffic ∷ save_chunks ∷ []

abbrev pub all_directions : List Direction
all_directions = download ∷ upload ∷ []

-- The value of a label, as the client library takes it.
abbrev pub cycle_err_reason : CycleErrReason → Text
cycle_err_reason dirs_read = codes "dirs_read"
cycle_err_reason nil_maps = codes "nil_maps"

abbrev pub phase : Phase → Text
phase read_dirs = codes "read_dirs"
phase load_channels = codes "load_channels"
phase load_sessions = codes "load_sessions"

abbrev pub nas_result : NasResult → Text
nas_result success = codes "ok"
nas_result no_new = codes "no_new"
nas_result no_internal = codes "no_internal"
nas_result unrecognized = codes "unrecognized"
nas_result failure = codes "error"

abbrev pub nas_stage : NasStage → Text
nas_stage checkpoint = codes "checkpoint"
nas_stage prepare = codes "prepare"
nas_stage parse = codes "parse"
nas_stage sift = codes "sift"
nas_stage save = codes "save"

abbrev pub nas_phase : NasPhase → Text
nas_phase stream_flow = codes "stream_flow"
nas_phase sift_traffic = codes "sift_traffic"
nas_phase save_chunks = codes "save_chunks"

abbrev pub direction : Direction → Text
direction download = codes "download"
direction upload = codes "upload"
