-- ===== src/Tests/ServiceExamples.antt =====
-- The loaders and the pool of a cycle at the data of the tests.
use aggregator_demo.Base.Word.{is_negative}
use aggregator_demo.Base.{
  ◌||◌, ◌++◌, arith, ◌≡◌, ◌≤◌, refl, true, false, none, List, [], ◌∷◌, nat_eq, text_eq,
  if◌then◌else◌, ltb,
}
use aggregator_demo.Base.Map.{lookup, NodupKeys}
use aggregator_demo.Entity.{Channel}
use aggregator_demo.Loaders.{SessionMap, channel_map_of}
use aggregator_demo.Loaders.Laws.{last_enabled, channel_map_of-last_enabled}
use aggregator_demo.Workerpool.{
  Pool, new_pool, started, min_size, Step, go_starts, Reachable, new, next, runs,
}
use aggregator_demo.Workerpool.Progress.{advance, worker-moves}
use aggregator_demo.Workerpool.Bounds.{total, is_running, running-bound}
use aggregator_demo.Tests.Data.{nas, client}

abbrev sessions_of_nas : SessionMap
sessions_of_nas = (nas, client ∷ []) ∷ []

abbrev channel_rows : List Channel
channel_rows =
    record { id = 1; enabled = true; descr = [] }
    ∷ record { id = 1; enabled = false; descr = [] }
    ∷ []

channel_map_of-last_enabled_example :
    NodupKeys (channel_map_of [] channel_rows)
    × (lookup 1 (channel_map_of [] channel_rows) ≡ last_enabled 1 channel_rows none)
channel_map_of-last_enabled_example = channel_map_of-last_enabled channel_rows 1

abbrev one_running : Pool
one_running = started 5 (new_pool 2)

one_running-Reachable : Reachable 2 one_running
one_running-Reachable =
    next (new_pool 2) one_running new
      (go_starts (new_pool 2) 5 (unfold new_pool is_negative in omega arith))

running-bound_example :
    total is_running one_running.workers ≤ (if is_negative 2 || ltb 2 min_size then min_size else 2)
running-bound_example = running-bound 2 one_running one_running-Reachable

worker-moves_example : (q : Pool) × (Step one_running q × (q.workers ≡ [] ++ advance 5 runs []))
worker-moves_example =
    worker-moves 2 one_running 5 runs [] [] one_running-Reachable (unfold started new_pool in refl)
