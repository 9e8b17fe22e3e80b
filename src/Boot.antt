-- ===== src/Boot.antt =====
-- How the service starts: `main` of src/cmd/main.go up to `Cron.Run`, with src/tools/pgdb, src/rimport and
-- src/uimport. Each failure ends the process with status 1.
pub mod Started
use aggregator_demo.Base.{ℕ, Bool, Option, none, some, [], ◌∷◌, ◌++◌, nat_eq, text_eq, ◌==◌}
use aggregator_demo.Base.Word.{Int64, add64}
use aggregator_demo.Base.Text.{Text, codes}
use aggregator_demo.Entity.{Error, Ip, Result, ok, err}
use aggregator_demo.Config.{
  Environment, Config, postgres_url, worker_pool_size, metrics_addr, tracing_endpoint,
}
use aggregator_demo.Subnetrange.{create_disabled_subnet_range}
use aggregator_demo.Traffic.{Net}
use aggregator_demo.Tracing
use aggregator_demo.Tracing.{Tracer, Shutdown, nop}

-- A part of the start: it ends the process, or goes on.
pub data Start {ℓ} (A : Type ℓ) : Type ℓ where
  exit_1 : Start A
  up : A → Start A

infixl 5 ◌>>=◌ ◌>>◌
abbrev pub ◌>>=◌ {ℓ κ} : {A : Type ℓ} {B : Type κ} → Start A → (A → Start B) → Start B
exit_1 >>= f = exit_1
up a >>= f = f a

abbrev pub ◌>>◌ {ℓ} : {B : Type ℓ} → Start (Unit {0}) → Start B → Start B
m >> k = m >>= λ _. k

abbrev pub unless_failed : Option Error → Start (Unit {0})
unless_failed none = up tt
unless_failed (some e) = exit_1

abbrev pub of_result {ℓ} : {A : Type ℓ} → Result A → Start A
of_result (ok a) = up a
of_result (err e) = exit_1

abbrev pub db_conn_reserve : Int64
db_conn_reserve = 3

-- `SqlxDB` of pgdb, by what `sqlx.Connect` gives: the limit of open connections.
unfoldable pub sqlx_db : Option Error → Int64 → Start Int64
sqlx_db (some e) max_open_conns = exit_1
sqlx_db none max_open_conns = up max_open_conns

-- `Metrics` in a registry that is served, or `Nop`.
pub data Metrics : Type 0 where
  served : Metrics
  discarded : Metrics

-- What the start finds; `exporter` is the OTLP exporter for an endpoint.
pub record Host : Type 0 where
  pub getenv : Environment
  pub load_config : Text → Result Config
  pub connect : Text → Option Error
  pub ping : Option Error
  pub exporter : Text → Option Error
  pub read_file : Text → Result Text

-- The library functions on addresses, networks and rangers.
pub record Networking : Type 1 where
  pub Network : Type 0
  pub Ranger : Type 0
  pub new_ranger : Ranger
  pub parse_cidr : Text → Result Network
  pub insert : Network → Ranger → Ranger × Option Error
  pub contains : Ranger → Ip → Option Bool
  pub parse_ip : Text → Option Ip
  pub ip_string : Ip → Text

-- The configuration, and the directories of the file repository.
pub record RepositoryImports : Type 0 where
  pub config : Config
  pub flow_dir : Text
  pub disabled_subnet_dir : Text

-- `NewRepositoryImports`; the other repositories have no state.
abbrev pub new_repository_imports : Environment → Config → RepositoryImports
new_repository_imports getenv conf = record {
  config = conf;
  flow_dir = getenv (codes "FLOW_DIR");
  disabled_subnet_dir = getenv (codes "SUBNET_DISABLED_DIR");
}

-- `flow.InternalDisabled` in the directory of the variable `SUBNET_DISABLED_DIR`.
unfoldable pub internal_path : Environment → Text
internal_path getenv = getenv (codes "SUBNET_DISABLED_DIR") ++ codes "/internal"

-- A part that was not passed is replaced by one that does nothing.
abbrev pub or_else {ℓ} : {A : Type ℓ} → Option A → A → A
or_else none a = a
or_else (some b) a = b

module _ (t : Networking) where
  open t use {Ranger, new_ranger, parse_cidr, insert, contains, parse_ip, ip_string}

  -- What `NewTrafficUsecase` is given with the ranger.
  unfoldable pub net_of : Ranger → Net
  net_of r = record { parse_ip = parse_ip; ip_string = ip_string; contains = contains r }

  -- `UsecaseImports`, of which the repositories, the pool size, the ranger, the metrics and the tracer differ from
  -- start to start.
  pub record UsecaseImports : Type 0 where
    pub repositories : RepositoryImports
    pub ranger : Ranger
    pub pool_size : Int64
    pub metrics : Metrics
    pub tracer : Tracer

  unfoldable pub ranger_or_exit : Option Ranger × Option Error → Start Ranger
  ranger_or_exit (r, some e) = exit_1
  ranger_or_exit (none, none) = exit_1
  ranger_or_exit (some r, none) = up r

  unfoldable pub imports_of :
      Host → RepositoryImports → Option Metrics → Option Tracer → Ranger → Start UsecaseImports
  unfolding worker_pool_size
  imports_of h ri m tr r = up (record {
    repositories = ri;
    ranger = r;
    pool_size = (worker_pool_size h.getenv ri.config).1;
    metrics = or_else m discarded;
    tracer = or_else tr nop;
  })

  -- `CreateDisabledSubnetRange`, whose error ends the process.
  unfoldable pub internal_net : Host → Start Ranger
  unfolding ranger_or_exit create_disabled_subnet_range internal_path
  internal_net h = ranger_or_exit (
      create_disabled_subnet_range parse_cidr insert new_ranger
        (h.read_file (internal_path h.getenv)))

  -- `NewUsecaseImports`, with `NewAggregatorUsecase`, which asks for the size of the pool.
  unfoldable pub new_usecase_imports :
      Host → RepositoryImports → Option Metrics → Option Tracer → Start UsecaseImports
  unfolding internal_net imports_of
  new_usecase_imports h ri m tr = internal_net h >>= imports_of h ri m tr

  -- The service when `main` calls `Cron.Run`.
  pub record Service : Type 0 where
    pub usecase : UsecaseImports
    pub max_open_conns : Int64
    pub addr : Text
    pub shutdown : Shutdown

  unfoldable pub service_of : Host → Int64 → Tracer × Shutdown → UsecaseImports → Start Service
  unfolding metrics_addr
  service_of h conns tr u = up (record {
    usecase = u;
    max_open_conns = conns;
    addr = metrics_addr h.getenv;
    shutdown = tr.1;
  })

  -- From the ping on.
  unfoldable pub with_db : Host → Config → Int64 → Start Service
  unfolding new_usecase_imports service_of Tracing.new tracing_endpoint
  with_db h c conns = do
    unless_failed h.ping
    let tr = Tracing.new h.exporter (tracing_endpoint h.getenv)
    let ri = new_repository_imports h.getenv c
    new_usecase_imports h ri (some served) (some tr.0) >>= service_of h conns tr

  -- From `SqlxDB` on.
  unfoldable pub with_config : Host → Config → Start Service
  unfolding sqlx_db with_db postgres_url worker_pool_size
  with_config h conf =
      let with_url = postgres_url h.getenv conf in
      let with_size = worker_pool_size h.getenv with_url.0 in
      sqlx_db (h.connect with_url.1) (add64 with_size.1 db_conn_reserve) >>= with_db h with_size.0

  -- `main`
  unfoldable pub main : Host → Start Service
  unfolding with_config
  main h = of_result (h.load_config (h.getenv (codes "CONF_PATH"))) >>= with_config h
