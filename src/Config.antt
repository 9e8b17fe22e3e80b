-- ===== src/Config.antt =====
-- src/config/config.go: the values of conf.yaml, overridden by environment variables, with defaults.
-- An environment is a function that gives the empty text for a variable that is not set, as
-- `os.Getenv` does; the loading of the file by configor is third-party.
use aggregator_demo.Base.{
  ◌≡◌, Bool, true, not, ◌&&◌, Option, none, some, [], ◌∷◌, ◌++◌, ◌==◌, nat_eq, text_eq,
  if◌then◌else◌, arith,
}
use aggregator_demo.Base.Word.{Int64, is_negative}
use aggregator_demo.Base.Text.{Text, codes}
use aggregator_demo.Base.Strconv.{atoi}

abbrev pub Environment : Type 0
Environment = Text → Text

pub record Postgres : Type 0 where
  pub user : Text
  pub password : Text
  pub url : Text
  pub db_name : Text
  pub timezone : Text

pub record Config : Type 0 where
  pub postgres : Postgres
  pub pool_size : Int64

abbrev pub default_worker_pool_size : Int64
default_worker_pool_size = 10

abbrev pub default_metrics_addr : Text
default_metrics_addr = codes ":2112"

abbrev pub default_postgres_db_name : Text
default_postgres_db_name = codes "aggregator"

abbrev pub default_postgres_timezone : Text
default_postgres_timezone = codes "Asia/Tashkent"

-- A variable that is set replaces a value.
unfoldable pub override : Text → Text → Text
override [] value = value
override (c ∷ s) value = c ∷ s

-- The fields behind the `if` statements of `PostgresURL`.
unfoldable pub completed : Environment → Postgres → Postgres
unfolding override
completed getenv p = record {
  user = p.user;
  password = override (getenv (codes "PG_PASSWORD")) p.password;
  url = override (getenv (codes "PG_URL")) p.url;
  db_name = override (override (getenv (codes "PG_DBNAME")) p.db_name) default_postgres_db_name;
  timezone =
      override (override (getenv (codes "PG_TIMEZONE")) p.timezone) default_postgres_timezone;
}

-- The `Sprintf` of `PostgresURL`
unfoldable pub url_of : Postgres → Text
url_of p =
    codes "postgresql://"
    ++ p.user
    ++ codes ":"
    ++ p.password
    ++ codes "@"
    ++ p.url
    ++ codes "/"
    ++ p.db_name
    ++ codes "?sslmode=disable&timezone="
    ++ p.timezone

-- `PostgresURL`, with the configuration that it leaves.
unfoldable pub postgres_url : Environment → Config → Config × Text
unfolding completed url_of
postgres_url getenv c = let p = completed getenv c.postgres in (record c { postgres = p }, url_of p)

-- `n > 0` and `n < 1` on a 64-bit pattern.
abbrev pub is_positive : Int64 → Bool
is_positive n = not (n == 0) && not (is_negative n)

-- The first `if` of `WorkerPoolSize`
unfoldable pub sized : Option Int64 → Int64 → Int64
sized none size = size
sized (some n) size = if is_positive n then n else size

-- `WorkerPoolSize`, with the configuration that it leaves.
unfoldable pub worker_pool_size : Environment → Config → Config × Int64
unfolding sized is_negative atoi
worker_pool_size getenv c =
    let size = sized (atoi (getenv (codes "WORKER_POOL_SIZE"))) c.pool_size in
    let n = if is_positive size then size else default_worker_pool_size in
    (record c { pool_size = n }, n)

unfoldable pub metrics_addr : Environment → Text
unfolding override
metrics_addr getenv = override (getenv (codes "METRICS_ADDR")) default_metrics_addr

unfoldable pub tracing_endpoint : Environment → Text
tracing_endpoint getenv = getenv (codes "TRACING_ENDPOINT")

-- The size of the pool is a positive `int` whatever the file and the environment say, and asking
-- again gives the same size and configuration.
pub worker_pool_size-positive :
    (getenv : Environment) (c : Config)
    → (is_positive (worker_pool_size getenv c).1 ≡ true)
      × (worker_pool_size getenv (worker_pool_size getenv c).0 ≡ worker_pool_size getenv c)
unfolding worker_pool_size is_negative sized
worker_pool_size-positive getenv c = ground arith
