-- ===== src/Boot/Started.antt =====
-- When the service starts, and what it has then.
use mathlib.Core.Path.{subst}
use mathlib.Core.List.{foldl}
use aggregator_demo.Base.{◌≡◌, ◌↔◌, refl, sym, ap, ◌∙◌, true, Option, none, some, List}
use aggregator_demo.Base.Word.{Int64, add64}
use aggregator_demo.Base.Text.{Text, codes, split}
use aggregator_demo.Entity.{Error, Result, ok, err}
use aggregator_demo.Config.{
  Config, is_positive, postgres_url, worker_pool_size, worker_pool_size-positive, metrics_addr,
  tracing_endpoint,
}
use aggregator_demo.Subnetrange.{create_disabled_subnet_range}
use aggregator_demo.Subnetrange.Networks.{
  items, networks, IsCreated, create_disabled_subnet_range-IsCreated,
}
use aggregator_demo.Tracing
use aggregator_demo.Boot.{
  Start, exit_1, up, ◌>>=◌, of_result, unless_failed, db_conn_reserve, sqlx_db, served, Host,
  Networking, internal_path, ranger_or_exit, new_usecase_imports, Service, main, with_config,
  with_db, internal_net, imports_of, service_of, new_repository_imports,
}

-- Inversion of a start that goes on.
>>=-eq-up {ℓ κ} :
    {A : Type ℓ} {B : Type κ} (m : Start A) (f : A → Start B) {b : B}
    → (m >>= f) ≡ up b
    → (a : A) × (m ≡ up a) × (f a ≡ up b)
>>=-eq-up (up a) f h = (a, refl, h)
>>=-eq-up exit_1 f h = absurd (cc h)

of_result-eq-up {ℓ} : {A : Type ℓ} (r : Result A) {a : A} → of_result r ≡ up a → r ≡ ok a
of_result-eq-up (ok b) h = cc h
of_result-eq-up (err e) h = absurd (cc h)

sqlx_db-eq-up :
    (o : Option Error) (n : Int64) {a : Int64} → sqlx_db o n ≡ up a → (o ≡ none) × (a ≡ n)
unfolding sqlx_db
sqlx_db-eq-up none n h = (refl, cc h)
sqlx_db-eq-up (some e) n h = absurd (cc h)

unless_failed-eq-up : (o : Option Error) → unless_failed o ≡ up tt → o ≡ none
unless_failed-eq-up none h = refl
unless_failed-eq-up (some e) h = absurd (cc h)

module _ (t : Networking) (add : t.Ranger → t.Network → t.Ranger)
    (inserts : (network : t.Network) (r : t.Ranger)
      → t.insert network r ≡ (add r network, none)) where
  -- The networks of the file of internal subnets.
  abbrev pub networks_of : Text → Result (List t.Network)
  networks_of text = networks t.parse_cidr (items (split b'\n' text))

  -- The ranger has exactly these networks.
  record IsLoaded (read : Result Text) (r : t.Ranger) : Type 0 where
    text : Text
    found : read ≡ ok text
    ns : List t.Network
    parsed : networks_of text ≡ ok ns
    filled : r ≡ foldl add t.new_ranger ns

  ranger_of : Result Text → Start t.Ranger
  ranger_of read =
      ranger_or_exit t (create_disabled_subnet_range t.parse_cidr t.insert t.new_ranger read)

  created-IsLoaded :
      (text : Text) (q : Option t.Ranger × Option Error) (ns : Result (List t.Network))
      (r : t.Ranger)
      → IsCreated t.parse_cidr t.insert add inserts t.new_ranger q ns
      → ranger_or_exit t q ≡ up r
      → networks_of text ≡ ns
      → IsLoaded (ok text) r
  unfolding ranger_or_exit
  created-IsLoaded text (o, some e) ns r c h p = absurd (cc h)
  created-IsLoaded text (none, none) ns r c h p = absurd (cc h)
  created-IsLoaded text (some r', none) (ok ns) r c h p = record {
    text = text;
    found = refl;
    ns = ns;
    parsed = p;
    filled = cc (c.0, h);
  }
  created-IsLoaded text (some r', none) (err e) r c h p = absurd (cc c)

  ranger_of-IsLoaded : (read : Result Text) (r : t.Ranger) → ranger_of read ≡ up r → IsLoaded read r
  unfolding ranger_of
  ranger_of-IsLoaded (err e) r h =
      absurd (unfold create_disabled_subnet_range ranger_or_exit in cc h)
  ranger_of-IsLoaded (ok text) r h =
      created-IsLoaded text
        (create_disabled_subnet_range t.parse_cidr t.insert t.new_ranger (ok text))
        (networks_of text) r
        (create_disabled_subnet_range-IsCreated t.parse_cidr t.insert add inserts t.new_ranger text)
        h refl

  created-up :
      (q : Option t.Ranger × Option Error) (ns : List t.Network)
      → IsCreated t.parse_cidr t.insert add inserts t.new_ranger q (ok ns)
      → (r : t.Ranger) × (ranger_or_exit t q ≡ up r)
  unfolding ranger_or_exit
  created-up (none, o) ns c = absurd c
  created-up (some r, o) ns c = (r, rw c.1 refl)

  -- What the start needs.
  pub record CanStart (h : Host) : Type 0 where
    pub config : Config
    pub loaded : h.load_config (h.getenv (codes "CONF_PATH")) ≡ ok config
    pub connected : h.connect (postgres_url h.getenv config).1 ≡ none
    pub pinged : h.ping ≡ none
    pub text : Text
    pub found : h.read_file (internal_path h.getenv) ≡ ok text
    pub ns : List t.Network
    pub parsed : networks_of text ≡ ok ns

  -- What the service has that started from this.
  pub record IsStarted (h : Host) (s : Service t) : Type 0 where
    pub from : CanStart h
    pub filled : s.usecase.ranger ≡ foldl add t.new_ranger from.ns
    pub positive : is_positive s.usecase.pool_size ≡ true
    pub conns : s.max_open_conns ≡ add64 s.usecase.pool_size db_conn_reserve
    pub flow_dir : s.usecase.repositories.flow_dir ≡ h.getenv (codes "FLOW_DIR")
    pub metrics : s.usecase.metrics ≡ served
    pub traced : (s.usecase.tracer, s.shutdown) ≡ Tracing.new h.exporter (tracing_endpoint h.getenv)

  -- The size that the aggregator asks for is the size for which the connections were counted.
  same_size :
      (h : Host) (c : Config)
      → (worker_pool_size h.getenv (worker_pool_size h.getenv c).0).1
        ≡ (worker_pool_size h.getenv c).1
  same_size h c = ap (λ (x : Config × Int64). x.1) (worker_pool_size-positive h.getenv c).1

  with_db-up :
      (h : Host) (c : Config) (conns : Int64) (s : Service t)
      → with_db t h c conns ≡ up s
      → (r : t.Ranger) × (h.ping ≡ none)
        × (ranger_of (h.read_file (internal_path h.getenv)) ≡ up r)
        × (let tr = Tracing.new h.exporter (tracing_endpoint h.getenv) in
            s ≡ record {
              usecase = record {
                repositories = new_repository_imports h.getenv c;
                ranger = r;
                pool_size = (worker_pool_size h.getenv c).1;
                metrics = served;
                tracer = tr.0;
              };
              max_open_conns = conns;
              addr = metrics_addr h.getenv;
              shutdown = tr.1;
            })
  unfolding with_db new_usecase_imports internal_net imports_of service_of ranger_of
  with_db-up h c conns s e =
      let tr = Tracing.new h.exporter (tracing_endpoint h.getenv) in
      let make = imports_of t h (new_repository_imports h.getenv c) (some served) (some tr.0) in
      let (one, pinged, e1) =
        >>=-eq-up (unless_failed h.ping)
          (λ _. (internal_net t h >>= make) >>= service_of t h conns tr) e in
      let (u, imported, e2) = >>=-eq-up (internal_net t h >>= make) (service_of t h conns tr) e1 in
      let (r, ranged, e3) = >>=-eq-up (internal_net t h) make imported in
      (r, unless_failed-eq-up h.ping (cc pinged), ranged, cc (e2, e3))

  with_config-IsStarted :
      (h : Host) (c : Config) (s : Service t)
      → h.load_config (h.getenv (codes "CONF_PATH")) ≡ ok c
      → with_config t h c ≡ up s
      → IsStarted h s
  unfolding with_config
  with_config-IsStarted h c s loaded e =
      let with_url = postgres_url h.getenv c in
      let with_size = worker_pool_size h.getenv with_url.0 in
      let (conns, connected, e1) =
        >>=-eq-up (sqlx_db (h.connect with_url.1) (add64 with_size.1 db_conn_reserve))
          (with_db t h with_size.0) e in
      let (open_conns, limit) =
        sqlx_db-eq-up (h.connect with_url.1) (add64 with_size.1 db_conn_reserve) connected in
      let (r, pinged, ranged, same) = with_db-up h with_size.0 conns s e1 in
      let l = ranger_of-IsLoaded (h.read_file (internal_path h.getenv)) r ranged in
      let size = ap (λ (x : Service t). x.usecase.pool_size) same ∙ same_size h with_url.0 in
      record {
        from = record {
          config = c;
          loaded = loaded;
          connected = open_conns;
          pinged = pinged;
          text = l.text;
          found = l.found;
          ns = l.ns;
          parsed = l.parsed;
        };
        filled = ap (λ (x : Service t). x.usecase.ranger) same ∙ l.filled;
        positive = rw size (worker_pool_size-positive h.getenv with_url.0).0;
        conns =
            ap (λ (x : Service t). x.max_open_conns) same
            ∙ limit
            ∙ ap (λ n. add64 n db_conn_reserve) (sym size);
        flow_dir = ap (λ (x : Service t). x.usecase.repositories.flow_dir) same;
        metrics = ap (λ (x : Service t). x.usecase.metrics) same;
        traced = ap (λ (x : Service t). (x.usecase.tracer, x.shutdown)) same;
      }

  -- A service that starts has read its configuration, connected to the database, had its ping
  -- answered and read a file of internal subnets whose lines are networks or blank; its ranger
  -- holds exactly those networks; its pool has a positive size, and its database at most three
  -- connections more than the pool has workers; its flow directory is that of `FLOW_DIR`; its metrics are served; and it traces if the
  -- exporter could be made for the endpoint. Inserting a network into the ranger is taken not to fail.
  pub main-IsStarted : (h : Host) (s : Service t) → main t h ≡ up s → IsStarted h s
  unfolding main
  main-IsStarted h s e =
      let (c, loaded, e1) =
        >>=-eq-up (of_result (h.load_config (h.getenv (codes "CONF_PATH")))) (with_config t h) e in
      with_config-IsStarted h c s
        (of_result-eq-up (h.load_config (h.getenv (codes "CONF_PATH"))) loaded) e1

  net-up :
      (h : Host) (text : Text) (ns : List t.Network)
      → h.read_file (internal_path h.getenv) ≡ ok text
      → networks_of text ≡ ok ns
      → (r : t.Ranger) × (internal_net t h ≡ up r)
  unfolding internal_net
  net-up h text ns p q = rw p (
      created-up (create_disabled_subnet_range t.parse_cidr t.insert t.new_ranger (ok text)) ns (
        subst
          (IsCreated t.parse_cidr t.insert add inserts t.new_ranger
            (create_disabled_subnet_range t.parse_cidr t.insert t.new_ranger (ok text)))
          q
          (create_disabled_subnet_range-IsCreated t.parse_cidr t.insert add inserts t.new_ranger
            text)))

  CanStart-up : (h : Host) → CanStart h → (s : Service t) × (main t h ≡ up s)
  unfolding main with_config sqlx_db with_db new_usecase_imports imports_of service_of
  CanStart-up h c =
      let (r, e) = net-up h c.text c.ns c.found c.parsed in
      rw (c.loaded, c.connected, c.pinged, e) (_, refl)

  -- The service starts exactly if it can read its configuration, connect to the database, have its
  -- ping answered, and read a file of internal subnets whose lines are networks or blank. In any
  -- other case the process ends with status 1. Inserting a network into the ranger is taken not to
  -- fail.
  pub main-starts : (h : Host) → ((s : Service t) × (main t h ≡ up s)) ↔ CanStart h
  main-starts h = (λ (s, e). (main-IsStarted h s e).from, CanStart-up h)
