-- ===== src/Tests/MachineExamples.antt =====
-- The machine of a worker, and a service in which the answer to a commit is lost and the worker starts
-- again.
use aggregator_demo.Machine.Applied.{save_applied}
use aggregator_demo.Base.Word.{add64}
use aggregator_demo.Base.Strconv.{atoi}
use aggregator_demo.Traffic.{
  accumulate_line, add_record, add_row, channel_list, classify, count, count_at, count_traffic,
  create_new_empty_traffic_map, new_flow_accumulator, parse_record, result, session_chunks,
  sift_loop, sift_traffic,
}
use aggregator_demo.Flow.{prepare_and_stream}
use aggregator_demo.Base.{
  ℕ, ◌≡◌, length, ◌≢◌, refl, zero, suc, none, some, [], ◌∷◌, text_eq, nat_eq,
}
use aggregator_demo.Base.Text.{codes, has_infix, split}
use aggregator_demo.Base.Map.{set_at, lookup, erase}
use aggregator_demo.Entity.{closed, no_rows, no_data}
use aggregator_demo.Storage.{file, place, read_file_names_in_flow_dir, remove_old}
use aggregator_demo.Aggregator.Save.{
  Env, applied_unanswered, load_names, remove_checkpoint, save_chunk_list_with_checkpoint,
}
use aggregator_demo.Aggregator.Stages.{has_new_file}
use aggregator_demo.Machine.{start}
use aggregator_demo.Machine.Interleaved.{
  Service, NoneTwice, AreRead, all_chunks, moved, put, arrives, moves, restarts, Reached, empty,
  next,
}
use aggregator_demo.Machine.Exact.{exactly_once}
use aggregator_demo.Tests.Data.{net, channels, nas, client, other_client, flow_file, env, empty_db}

-- The commit is applied, but its answer does not arrive.
abbrev lost_env : Env
lost_env = record env { commit_save = applied_unanswered closed }

abbrev pub IsAnswering : Env → Type 0
IsAnswering e = e.select_names ≡ none

pub no_rows-IsAnswering : (e : Env) → IsAnswering e → e.select_names ≢ some no_rows
no_rows-IsAnswering e h k = cc (h, k)

pub no_data-IsAnswering : (e : Env) → IsAnswering e → e.select_names ≢ some no_data
no_data-IsAnswering e h k = cc (h, k)

abbrev empty_service : Service
empty_service = record {
  dirs = λ j. record { entries = []; tmp = none };
  points = λ j. start;
  db = empty_db;
  saves = [];
}

-- A collector writes one file and has ended another.
abbrev with_part : Service
with_part = put empty_service nas (codes "tmp-2") (file [])

abbrev pub with_file : Service
with_file = put with_part nas (codes "ft-1") (file flow_file)

pub with_file-Reached : Reached IsAnswering with_file
unfolding put set_at place lookup text_eq nat_eq
with_file-Reached =
    next with_part with_file
      (next empty_service with_part
        (empty empty_service (λ j. refl) (λ j. refl) refl refl refl refl)
        (arrives empty_service nas (codes "tmp-2") (file []) refl refl))
      (arrives with_part nas (codes "ft-1") (file flow_file) refl refl)

abbrev stepped : Env → Service → Service
stepped e = moved e nas (client ∷ other_client ∷ []) channels net

-- `k` steps of the worker.
abbrev stepped_by : Env → ℕ → Service → Service
stepped_by e zero w = w
stepped_by e (suc k) w = stepped e (stepped_by e k w)

stepped_by-Reached :
    (e : Env) (k : ℕ) (w : Service)
    → IsAnswering e
    → Reached IsAnswering w
    → Reached IsAnswering (stepped_by e k w)
stepped_by-Reached e zero w a r = r
stepped_by-Reached e (suc k) w a r =
    next (stepped_by e k w) (stepped_by e (suc k) w) (stepped_by-Reached e k w a r)
      (moves (stepped_by e k w) e nas (client ∷ other_client ∷ []) channels net a)

-- The worker stops behind the lost answer, and starts again.
abbrev restarted : Service
restarted =
    let w = stepped_by lost_env 3 with_file in record w { points = set_at w.points nas start }

restarted-Reached : Reached IsAnswering restarted
unfolding env
restarted-Reached =
    let w = stepped_by lost_env 3 with_file in
    next w restarted (stepped_by-Reached lost_env 3 with_file refl with_file-Reached)
      (restarts w nas)

abbrev ended_service : Service
ended_service = stepped_by env 5 restarted

exactly_once_example :
    NoneTwice ended_service.saves
    × (ended_service.db.chunk ≡ all_chunks ended_service.saves)
    × AreRead ended_service.saves
unfolding env
exactly_once_example =
    exactly_once IsAnswering no_rows-IsAnswering no_data-IsAnswering ended_service
      (stepped_by-Reached env 5 restarted refl restarted-Reached)

-- The worker is about to remove the file that it has counted.
abbrev removing : Service
removing = stepped_by env 3 with_file

-- The lost answer and the restart: one save with four chunks, and the checkpoint is gone with the
-- files.
abbrev counts : Service → ℕ × ℕ × ℕ
counts w = (length w.saves, length w.db.chunk, length w.db.flow_batch)

ended_counts : counts ended_service ≡ (1, 4, 0)
unfolding moved text_eq put load_names env prepare_and_stream read_file_names_in_flow_dir has_infix
    nat_eq lookup split accumulate_line has_new_file result add_row add_record parse_record net atoi
    classify count count_at new_flow_accumulator sift_traffic sift_loop session_chunks channel_list
    count_traffic create_new_empty_traffic_map add64 save_chunk_list_with_checkpoint remove_old
    erase remove_checkpoint save_applied
ended_counts = refl
