-- ===== src/Tests/DatabaseExamples.antt =====
-- The checkpoint and the files at the state of the tests.
use aggregator_demo.Base.{
  Bool, true, false, Option, ◌≡◌, ◌⊎◌, refl, ◌+◌, none, some, List, [], ◌∷◌, ◌++◌, map, nat_eq,
  text_eq,
}
use aggregator_demo.Base.Text.{Text, codes, has_infix, starts_with, split}
use aggregator_demo.Base.Map.{Map, get_or, lookup}
use aggregator_demo.Entity.{Chunk, new_chunk}
use aggregator_demo.Database.{apply_all, insert_chunk}
use aggregator_demo.Storage.{NasDir, file, file_names, no_faults, stream_entries, remove_old}
use aggregator_demo.Storage.Skip.{SameRead, unskipped, stream_entries-SameRead}
use aggregator_demo.Storage.Stream.{Cleaned, remove_old-Cleaned}
use aggregator_demo.Traffic.{new_flow_accumulator, accumulate_line}
use aggregator_demo.Entity.{Error}
use aggregator_demo.Storage.{read_file_names_in_flow_dir}
use aggregator_demo.Storage.Ready.{tmp_entries}
use aggregator_demo.Storage.Lines.{called, flow_lines}
use aggregator_demo.Flow.{prepare_and_stream}
use aggregator_demo.Flow.Whole.{prepare_and_stream-IsWhole}
use aggregator_demo.Aggregator.Loaded.{IsCheckpoint, load_names-IsCheckpoint}
use aggregator_demo.Aggregator.Save.{load_names, save_chunk_list_with_checkpoint}
use aggregator_demo.Aggregator.Stages.{State, aggregate}
use aggregator_demo.Aggregator.Idle.{aggregate-idle}
use aggregator_demo.Aggregator.Results.{nas_results, returned, aggregate-nas_results}
use aggregator_demo.Aggregator.Atomic.{rows_of, save-AllOrNothing}
use aggregator_demo.Tests.Data.{
  net, channels, nas, client, other_client, flow_file, env, empty_db, dir, start_state,
}

abbrev chunks : List Chunk
chunks = new_chunk 7 2 1000 300 ∷ []

abbrev flow_name : Text
flow_name = codes "ft-1"

-- A file that waits in `tmp`.
abbrev moved_dir : NasDir
moved_dir = record { entries = []; tmp = some ((flow_name, file flow_file) ∷ []) }

save-AllOrNothing_example :
    let r = save_chunk_list_with_checkpoint env nas chunks (flow_name ∷ []) empty_db in
    let saved = map insert_chunk chunks ++ rows_of nas (flow_name ∷ []) in
    ((r.0 ≡ empty_db) ⊎ (r.0 ≡ apply_all empty_db saved))
    × (r.1 ≡ none → r.0 ≡ apply_all empty_db saved)
save-AllOrNothing_example = save-AllOrNothing env nas chunks (flow_name ∷ []) empty_db

-- A file of an earlier run in `tmp`, and nothing else.
abbrev left_over : State
left_over = record start_state {
  dir = record { entries = []; tmp = some ((flow_name, file flow_file) ∷ []) };
}

aggregate-idle_example :
    let t = (aggregate env nas (client ∷ []) channels net left_over).0 in
    (t.dir ≡ left_over.dir) × (t.db ≡ left_over.db)
unfolding file_names
aggregate-idle_example = aggregate-idle env nas (client ∷ []) channels net left_over refl

remove_old-Cleaned_example : Cleaned moved_dir (remove_old no_faults moved_dir)
remove_old-Cleaned_example = remove_old-Cleaned no_faults moved_dir

aggregate-nas_results_example :
    let r = aggregate env nas (client ∷ other_client ∷ []) channels net start_state in
    nas_results r.0.events ≡ nas_results start_state.events + returned r.1
aggregate-nas_results_example =
    aggregate-nas_results env nas (client ∷ other_client ∷ []) channels net start_state

abbrev counted_names : Map Text Bool
counted_names = (flow_name, true) ∷ []

-- A file of the checkpoint waits in `tmp`, and a new one has come.
abbrev two_files : NasDir
two_files = record {
  entries = (codes "ft-2", file flow_file) ∷ [];
  tmp = some ((flow_name, file flow_file) ∷ []);
}

stream_entries-SameRead_example :
    let start = new_flow_accumulator channels in
    SameRead (stream_entries no_faults (accumulate_line net) counted_names dir.entries [] start 0) (
      stream_entries no_faults
        (accumulate_line net)
        []
        (unskipped counted_names dir.entries)
        []
        start
        0)
stream_entries-SameRead_example =
    stream_entries-SameRead no_faults (accumulate_line net) counted_names dir.entries [] []
      (new_flow_accumulator channels) 0

-- A callback that keeps the lines.
abbrev collect : List Text → Text → List Text × Option Error
collect lines line = (lines ++ line ∷ [], none)

collected : (prepare_and_stream no_faults collect counted_names [] two_files).1.error ≡ none
unfolding prepare_and_stream read_file_names_in_flow_dir has_infix starts_with nat_eq text_eq lookup
    split
collected = refl

prepare_and_stream-IsWhole_example :
    let r = prepare_and_stream no_faults collect counted_names [] two_files in
    r.1.state
    ≡ called collect
        (λ s text. refl)
        []
        (flow_lines (λ x. get_or x counted_names false) (tmp_entries r.0.tmp))
prepare_and_stream-IsWhole_example =
    prepare_and_stream-IsWhole no_faults collect (λ s text. refl) counted_names [] two_files
      collected

load_names-IsCheckpoint_example : IsCheckpoint nas empty_db.flow_batch (load_names env nas empty_db)
load_names-IsCheckpoint_example =
    load_names-IsCheckpoint nas env empty_db (unfold env in λ p. cc p) (unfold env in λ p. cc p)
