-- ===== src/Tests/BootExamples.antt =====
-- The start, the life and the end of the service at concrete inputs.
use aggregator_demo.Base.{
  ℕ, zero, suc, ◌+◌, ◌*◌, ◌≤◌, ◌≡◌, ◌↔◌, refl, Bool, true, false, none, some, List, [], ◌∷◌, ◌++◌,
  nat_eq, text_eq, arith,
}
use aggregator_demo.Base.Text.{Text, codes, split}
use aggregator_demo.Entity.{ok}
use aggregator_demo.Measure.{MeasureData, top_timers}
use aggregator_demo.Measure.Top.{IsTop, top_timers-IsTop}
use aggregator_demo.App.{
  App, launched, Step, cron_stops, signalled, Reachable, start, outside, step, left_loop,
}
use aggregator_demo.App.Safety.{IsSound, Reachable-IsSound}
use aggregator_demo.App.Shutdown.{work, Run, still, steps, meets, Run-bound, cancelled-CanStep}
use aggregator_demo.Base.Word.{is_negative}
use aggregator_demo.Base.Strconv.Decimal.{itoa}
use aggregator_demo.Aggregator.Save.{applied}
use aggregator_demo.Loadgen.{Load, LoadEnv, generated}
use aggregator_demo.Loadgen.Command.{run}
use aggregator_demo.Loadgen.PoolSize.{run-pool_size}
use aggregator_demo.Tests.Data.{empty_db}
use aggregator_demo.Config.{Config, postgres_url, worker_pool_size}
use aggregator_demo.Boot.{new_repository_imports, Host, Networking, Service, main, up, served}
use aggregator_demo.Tracing.{nop, no_shutdown}
use aggregator_demo.Subnetrange.{trim_space}
use aggregator_demo.Subnetrange.Networks.{networks}
use aggregator_demo.Boot.Started.{CanStart, IsStarted, main-IsStarted, main-starts}

abbrev timer : ℕ → MeasureData
timer n = record { name = codes "t"; start_time = n; elapsed = n }

abbrev timers : List MeasureData
timers = timer 3 ∷ timer 9 ∷ timer 4 ∷ timer 9 ∷ timer 1 ∷ timer 7 ∷ []

top_timers-IsTop_example : (rest : List MeasureData) × IsTop timers (top_timers timers) rest
top_timers-IsTop_example = top_timers-IsTop timers

-- A signal, and the loop of the scheduler that ends.
abbrev told_to_stop : App
told_to_stop = record launched { cancelled = true }

abbrev leaving : App
leaving = record told_to_stop { main = left_loop }

leaving-Reachable : Reachable leaving
leaving-Reachable = step (outside start (signalled launched)) (cron_stops told_to_stop refl refl)

Reachable-IsSound_example : IsSound leaving
Reachable-IsSound_example = Reachable-IsSound leaving-Reachable

leaving-Run : Run 1 1 launched leaving
leaving-Run =
    steps 0 1 launched told_to_stop leaving
      (meets 0 0 launched launched told_to_stop (still launched) (signalled launched))
      (cron_stops told_to_stop refl refl)

Run-bound_example : 1 + work leaving ≤ work launched + 2 * 1
Run-bound_example = Run-bound 1 1 launched leaving leaving-Run

cancelled-CanStep_example : (b : App) × Step leaving b
cancelled-CanStep_example = cancelled-CanStep leaving leaving-Reachable refl (λ h. cc h)

-- A ranger that is the list of the networks that were inserted.
abbrev networking : Networking
networking = record {
  Network = Text;
  Ranger = List Text;
  new_ranger = [];
  parse_cidr = ok;
  insert = λ network r. (r ++ network ∷ [], none);
  contains = λ r ip. some false;
  parse_ip = some;
  ip_string = λ ip. ip;
}

abbrev loaded_config : Config
loaded_config = record {
  postgres = record { user = []; password = []; url = []; db_name = []; timezone = [] };
  pool_size = 4;
}

abbrev host : Host
host = record {
  getenv = λ name. [];
  load_config = λ path. ok loaded_config;
  connect = λ url. none;
  ping = none;
  exporter = λ endpoint. none;
  read_file = λ path. ok (codes "10.0.0.0/8\n");
}

abbrev add : List Text → Text → List Text
add r network = r ++ network ∷ []

host-CanStart : CanStart networking add (λ network r. refl) host
unfolding networks split trim_space nat_eq text_eq
host-CanStart = record {
  config = loaded_config;
  loaded = refl;
  connected = refl;
  pinged = refl;
  text = codes "10.0.0.0/8\n";
  found = refl;
  ns = codes "10.0.0.0/8" ∷ [];
  parsed = refl;
}

main-starts_example :
    ((s : Service networking) × (main networking host ≡ up s))
    ↔ CanStart networking add (λ network r. refl) host
main-starts_example = main-starts networking add (λ network r. refl) host

abbrev service : Service networking
service = record {
  usecase = record {
    repositories =
        new_repository_imports host.getenv
          (worker_pool_size host.getenv (postgres_url host.getenv loaded_config).0).0;
    ranger = codes "10.0.0.0/8" ∷ [];
    pool_size = 4;
    metrics = served;
    tracer = nop;
  };
  max_open_conns = 7;
  addr = codes ":2112";
  shutdown = no_shutdown;
}

host-main : main networking host ≡ up service
unfolding main split nat_eq text_eq aggregator_demo.Base.Word.add64
host-main = refl

main-IsStarted_example : IsStarted networking add (λ network r. refl) host service
main-IsStarted_example = main-IsStarted networking add (λ network r. refl) host service host-main

abbrev load_env : LoadEnv
load_env = record {
  generate = λ i. generated;
  begin = none;
  prepare = none;
  exec = λ i. none;
  commit = applied;
  read_root = none;
  remove_all = λ name. none;
  delete_chunks = none;
  delete_sessions = none;
}

-- The load, and the size of the pool under the name of a directory.
abbrev noted : ℕ → Load → Load
noted size l = record l { dirs = itoa size ∷ l.dirs }

run-pool_size_example :
    run networking noted host none load_env
      (record { n = 1; cleanup = false; run_cycle = true; pool_size = 3 })
      (record { dirs = []; db = empty_db })
    ≡ run networking
        (λ _. noted 3)
        host
        none
        load_env
        (record { n = 1; cleanup = false; run_cycle = true; pool_size = 3 })
        (record { dirs = []; db = empty_db })
run-pool_size_example =
    run-pool_size networking noted (λ _. noted 3) host none load_env
      (record { n = 1; cleanup = false; run_cycle = true; pool_size = 3 })
      (record { dirs = []; db = empty_db }) (unfold is_negative nat_eq in refl) (λ l. refl)
