-- ===== src/Loadgen/PoolSize.antt =====
-- The flag `-pool-size`.
use mathlib.Core.Path.{fun_ext}
use aggregator_demo.Base.{
  ◌≡◌, refl, ap, Bool, true, false, Option, none, some, [], ◌<◌, ◌^◌, arith, ◌==◌, nat_eq, text_eq,
  Bool-cases, inl, inr,
}
use aggregator_demo.Base.Word.{Int64, is_negative, add64}
use aggregator_demo.Base.Text.{codes}
use aggregator_demo.Base.Strconv.Decimal.{itoa, atoi-itoa}
use aggregator_demo.Entity.{Error, Result, ok, err}
use aggregator_demo.Config.{Config, is_positive, sized, postgres_url, worker_pool_size}
use aggregator_demo.Boot.{
  new_repository_imports, ◌>>=◌, Start, sqlx_db, exit_1, up, Host, Networking, internal_net,
  imports_of, new_usecase_imports,
}
use aggregator_demo.Loadgen.{Load, LoadEnv}
use aggregator_demo.Loadgen.Command.{
  db_conn_reserve, finished, Flags, pool_variable, with_variable, on_db, cycled, pinged,
  timed_cycle, maybe_cycle, maybe_seed, maybe_cleanup, with_flags, configured, with_pool, run,
}

pool_size_of :
    (p : Int64) (h : Host) (c : Config)
    → is_positive p ≡ true
    → p < 2 ^ 63
    → (worker_pool_size (with_variable pool_variable (itoa p) h.getenv) c).1 ≡ p
unfolding worker_pool_size with_variable sized nat_eq text_eq
pool_size_of p h c pos small = rw (atoi-itoa p small) (ground arith)

positive-lt : (p : Int64) → is_positive p ≡ true → p < 2 ^ 63
unfolding is_negative
positive-lt p h = ground arith

-- Two cycles that do the same with a pool of `p` workers.
module _ (t : Networking) (cycle cycle' : Int64 → Load → Load) (from : Host) (e : LoadEnv)
    (p : Int64) (pos : is_positive p ≡ true) (same : (l : Load) → cycle p l ≡ cycle' p l) where
  h : Host
  h = record from { getenv = with_variable pool_variable (itoa p) from.getenv }

  imported-same :
      (c : Config) (s : Start t.Ranger) (l : Load)
      → cycled t cycle h e (s >>= imports_of t h (new_repository_imports h.getenv c) none none) l
        ≡ cycled t cycle' h e (s >>= imports_of t h (new_repository_imports h.getenv c) none none) l
  unfolding imports_of cycled h
  imported-same c exit_1 l = refl
  imported-same c (up r) l =
      rw (pool_size_of p from c pos (positive-lt p pos)) (ap (λ x. (x, finished)) (same l))

  pinged-same :
      (c : Config) (o : Option Error) (l : Load)
      → pinged t cycle h e c o l ≡ pinged t cycle' h e c o l
  unfolding pinged new_usecase_imports h
  pinged-same c (some x) l = refl
  pinged-same c none l = imported-same c (internal_net t h) l

  -- The connection of a stage, from the configuration that it finds.
  connection : Config → Start Int64
  connection c =
      let with_url = postgres_url h.getenv c in
      let with_size = worker_pool_size h.getenv with_url.0 in
      sqlx_db (h.connect with_url.1) (add64 with_size.1 db_conn_reserve)

  sized_config : Config → Config
  sized_config c = (worker_pool_size h.getenv (postgres_url h.getenv c).0).0

  timed_cycle-same : (c : Config) → timed_cycle t cycle h e c ≡ timed_cycle t cycle' h e c
  unfolding timed_cycle connection sized_config
  timed_cycle-same c =
      ap (λ next. on_db next (connection c)) (fun_ext (λ l. pinged-same (sized_config c) h.ping l))

  maybe_cycle-same :
      (b : Bool) (c : Config) → maybe_cycle t cycle h e b c ≡ maybe_cycle t cycle' h e b c
  unfolding maybe_cycle
  maybe_cycle-same true c = timed_cycle-same c
  maybe_cycle-same false c = refl

  with_flags-same :
      (f : Flags) (r : Result Config) (l : Load)
      → with_flags t cycle h e f r l ≡ with_flags t cycle' h e f r l
  unfolding with_flags connection sized_config
  with_flags-same f (err x) l = refl
  with_flags-same f (ok c) l =
      ap (λ next. on_db (maybe_cleanup e f.cleanup (maybe_seed e f.n next)) (connection c) l)
        (maybe_cycle-same f.run_cycle (sized_config c))

with_pool-same :
    (t : Networking) (cycle cycle' : Int64 → Load → Load) (h : Host) (e : LoadEnv) (f : Flags)
    (set_env : Option Error) (l : Load)
    → is_positive f.pool_size ≡ true
    → ((l : Load) → cycle f.pool_size l ≡ cycle' f.pool_size l)
    → with_pool t cycle h e f set_env l ≡ with_pool t cycle' h e f set_env l
unfolding with_pool configured h
with_pool-same t cycle cycle' host e f (some x) l pos same = refl
with_pool-same t cycle cycle' host e f none l pos same =
    let getenv = with_variable pool_variable (itoa f.pool_size) host.getenv in
    with_flags-same t cycle cycle' host e f.pool_size pos same f
      (host.load_config (getenv (codes "CONF_PATH"))) l

-- With `-pool-size` above zero, a cycle that the command runs has a pool of exactly that many workers,
-- whatever conf.yaml and the environment say: the command does the same with any two cycles that
-- do the same with such a pool.
pub run-pool_size :
    (t : Networking) (cycle cycle' : Int64 → Load → Load) (h : Host) (set_env : Option Error)
    (e : LoadEnv) (f : Flags) (l : Load)
    → is_positive f.pool_size ≡ true
    → ((l : Load) → cycle f.pool_size l ≡ cycle' f.pool_size l)
    → run t cycle h set_env e f l ≡ run t cycle' h set_env e f l
unfolding run
run-pool_size t cycle cycle' h set_env e f l pos same =
    elim (Bool-cases (h.getenv (codes "FLOW_DIR") == [])) [
      | inl p ↦ rw p refl
      | inr p ↦ rw (p, pos) (with_pool-same t cycle cycle' h e f set_env l pos same)
    ]
