-- ===== src/Loadgen/Command.antt =====
-- `run` and `runCycle` of src/cmd/loadgen/main.go: the flags, and what is done in which order. What a cycle
-- does to the load is an argument: it is `start` of Cycle over the contents of the files, which a
-- `Load` does not have.
use aggregator_demo.Base.{
  Bool, true, false, Option, none, some, [], ltb, ◌==◌, nat_eq, text_eq, if◌then◌else◌,
}
use aggregator_demo.Base.Word.{Int64, add64}
use aggregator_demo.Base.Text.{Text, codes}
use aggregator_demo.Base.Strconv.Decimal.{itoa}
use aggregator_demo.Entity.{Error, Result, ok, err}
use aggregator_demo.Config.{Environment, Config, is_positive, postgres_url, worker_pool_size}
use aggregator_demo.Boot.{
  new_repository_imports, Start, exit_1, up, sqlx_db, Host, Networking, UsecaseImports,
  new_usecase_imports,
}
use aggregator_demo.Loadgen.{Load, LoadEnv, max_synthetic, seed_load, cleanup_load}

-- The flags `-n`, `-cleanup`, `-run` and `-pool-size`.
pub record Flags : Type 0 where
  pub n : Int64
  pub cleanup : Bool
  pub run_cycle : Bool
  pub pool_size : Int64

-- How the command ends: without an error, with one that `main` logs, or by `os.Exit` inside a call.
pub data End : Type 0 where
  finished failed exited : End

abbrev pub db_conn_reserve : Int64
db_conn_reserve = 2

abbrev pub pool_variable : Text
pool_variable = codes "WORKER_POOL_SIZE"

-- `os.Setenv`
unfoldable pub with_variable : Text → Text → Environment → Environment
with_variable name value getenv j = if j == name then value else getenv j

abbrev pub Stage : Type 0
Stage = Load → Load × End

-- The next stage, unless there was an error.
unfoldable pub and_then : Stage → Load × Option Error → Load × End
and_then next (l, some x) = (l, failed)
and_then next (l, none) = next l

unfoldable pub on_db : Stage → Start Int64 → Stage
on_db next exit_1 l = (l, exited)
on_db next (up n) l = next l

unfoldable pub maybe_seed : LoadEnv → Int64 → Stage → Stage
unfolding and_then seed_load
maybe_seed e n next l =
    if is_positive n
    then if ltb max_synthetic n then (l, failed) else and_then next (seed_load e n l)
    else next l

unfoldable pub maybe_cleanup : LoadEnv → Bool → Stage → Stage
unfolding and_then cleanup_load
maybe_cleanup e true next l = and_then next (cleanup_load e l)
maybe_cleanup e false next l = next l

module _ (t : Networking) (cycle : Int64 → Load → Load) (h : Host) (e : LoadEnv) where
  unfoldable pub cycled : Start (UsecaseImports t) → Stage
  cycled exit_1 l = (l, exited)
  cycled (up u) l = (cycle u.pool_size l, finished)

  unfoldable pub pinged : Config → Option Error → Stage
  unfolding cycled new_usecase_imports
  pinged c (some x) l = (l, failed)
  pinged c none l = cycled (new_usecase_imports t h (new_repository_imports h.getenv c) none none) l

  -- `runCycle`
  unfoldable pub timed_cycle : Config → Stage
  unfolding on_db pinged sqlx_db postgres_url worker_pool_size
  timed_cycle c =
      let with_url = postgres_url h.getenv c in
      let with_size = worker_pool_size h.getenv with_url.0 in
      on_db (pinged with_size.0 h.ping)
        (sqlx_db (h.connect with_url.1) (add64 with_size.1 db_conn_reserve))

  unfoldable pub maybe_cycle : Bool → Config → Stage
  unfolding timed_cycle
  maybe_cycle true c l = timed_cycle c l
  maybe_cycle false c l = (l, finished)

  -- From `SqlxDB` on.
  unfoldable pub with_flags : Flags → Result Config → Stage
  unfolding maybe_cleanup maybe_seed maybe_cycle on_db sqlx_db postgres_url worker_pool_size
  with_flags f (err x) l = (l, failed)
  with_flags f (ok c) l =
      let with_url = postgres_url h.getenv c in
      let with_size = worker_pool_size h.getenv with_url.0 in
      on_db (maybe_cleanup e f.cleanup (maybe_seed e f.n (maybe_cycle f.run_cycle with_size.0)))
        (sqlx_db (h.connect with_url.1) (add64 with_size.1 db_conn_reserve)) l

-- From `NewConfig` on.
unfoldable pub configured : Networking → (Int64 → Load → Load) → Host → LoadEnv → Flags → Stage
unfolding with_flags
configured t cycle h e f = with_flags t cycle h e f (h.load_config (h.getenv (codes "CONF_PATH")))

-- By what `os.Setenv` gives.
unfoldable pub with_pool :
    Networking → (Int64 → Load → Load) → Host → LoadEnv → Flags → Option Error → Stage
unfolding configured with_variable itoa
with_pool t cycle h e f (some x) l = (l, failed)
with_pool t cycle h e f none l =
    configured t cycle
      (record h { getenv = with_variable pool_variable (itoa f.pool_size) h.getenv }) e f l

-- `run`
unfoldable pub run :
    Networking → (Int64 → Load → Load) → Host → Option Error → LoadEnv → Flags → Stage
unfolding configured with_pool
run t cycle h set_env e f l =
    if h.getenv (codes "FLOW_DIR") == []
    then (l, failed)
    else if is_positive f.pool_size
    then with_pool t cycle h e f set_env l
    else configured t cycle h e f l
