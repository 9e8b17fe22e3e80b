-- ===== src/Flow.antt =====
-- `StreamFlow` of src/internal/usecase/flow.go: complete flow files are moved to `tmp`, and all
-- of `tmp` is streamed.
pub mod Moves
pub mod Complete
pub mod Ready
pub mod Gathered
pub mod Pending
pub mod Read
pub mod Whole
use aggregator_demo.Base.{Bool, true, false, Option, none, some, List, [], ◌∷◌, if◌then◌else◌}
use aggregator_demo.Base.Text.{Text, has_infix}
use aggregator_demo.Base.Map.{Map}
use aggregator_demo.Entity.{Error, no_data, internal_error, flow_name_sub_str, Result, ok, err}
use aggregator_demo.Storage.{
  NasDir, Faults, read_file_names_in_flow_dir, move_flow_to_temp_dir, Streamed, stream_flow,
}

-- The loop over the files of the directory; the first failure ends it.
unfoldable pub after_move :
    (NasDir → NasDir × Option Error) → NasDir × Option Error → NasDir × Option Error
after_move more (d, some e) = (d, some e)
after_move more (d, none) = more d

-- Only names of flow files are moved.
unfoldable pub move_named :
    (NasDir → NasDir × Option Error) → Faults → Text → NasDir → Bool → NasDir × Option Error
unfolding after_move move_flow_to_temp_dir
move_named more f name d true = after_move more (move_flow_to_temp_dir f name d)
move_named more f name d false = more d

unfoldable pub move_files : Faults → List Text → NasDir → NasDir × Option Error
unfolding move_named
move_files f [] d = (d, none)
move_files f (name ∷ names) d =
    move_named (move_files f names) f name d (has_infix name flow_name_sub_str)

module _ {ℓ} {S : Type ℓ} (f : Faults) (on_line : S → Text → S × Option Error) where
  -- A failure to stream becomes `ErrInternalError`.
  unfoldable pub with_error : Streamed S → Option Error → Streamed S
  with_error r none = r
  with_error r (some e) = record r { error = some internal_error }

  unfoldable pub failed : S → Error → Streamed S
  failed s e = record { state = s; names = []; size = 0; error = some e }

  unfoldable pub streamed : Map Text Bool → S → NasDir × Option Error → NasDir × Streamed S
  streamed skip s (d, some e) = (d, failed s e)
  streamed skip s (d, none) = let r = stream_flow f on_line skip s d in (d, with_error r r.error)

  -- The `switch` on the list of names.
  unfoldable pub by_names : Map Text Bool → S → NasDir → Result (List Text) → NasDir × Streamed S
  by_names skip s d (ok names) = streamed skip s (move_files f names d)
  by_names skip s d (err no_data) = (d, failed s no_data)
  by_names skip s d (err e) = (d, failed s internal_error)

  -- `FlowUsecase.StreamFlow`
  unfoldable pub prepare_and_stream : Map Text Bool → S → NasDir → NasDir × Streamed S
  unfolding by_names streamed failed with_error move_files stream_flow
  prepare_and_stream skip s d = by_names skip s d (read_file_names_in_flow_dir f d)
