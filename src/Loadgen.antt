-- ===== src/Loadgen.antt =====
-- src/cmd/loadgen/main.go: the addresses of the synthetic load, and its creation and removal. What the
-- file system, the database and the flow generator answer is an argument. Flags, the connection and the
-- timing of a cycle are left out.
pub mod Addresses
pub mod Cleanup
pub mod Undone
pub mod Command
pub mod PoolSize
use aggregator_demo.Base.{
  ℕ, zero, suc, ◌+◌, ◌*◌, ◌/◌, ◌%◌, Bool, true, false, Option, none, some, List, [], ◌∷◌, ◌++◌,
  ◌==◌, leb, ltb, nat_eq, text_eq, if◌then◌else◌, select, not,
}
use aggregator_demo.Base.Text.{Text, codes, starts_with}
use aggregator_demo.Base.Strconv.Decimal.{itoa}
use aggregator_demo.Entity.{Error, OnlineSession, Chunk}
use aggregator_demo.Database.{Db}
use aggregator_demo.Aggregator.Save.{Commit, applied, refused, applied_unanswered}

abbrev pub synthetic_sess_id_base : ℕ
synthetic_sess_id_base = 100000

abbrev pub synthetic_nas_prefix : Text
synthetic_nas_prefix = codes "10."

abbrev pub client_ip_per_octet : ℕ
client_ip_per_octet = 254

abbrev pub max_synthetic : ℕ
max_synthetic = 15 * client_ip_per_octet

abbrev pub nas_octet_size : ℕ
nas_octet_size = 256

-- `nasIPByIndex`
unfoldable pub nas_ip_by_index : ℕ → Text
nas_ip_by_index i =
    synthetic_nas_prefix
    ++ (itoa (i / nas_octet_size) ++ b'.' ∷ (itoa (i % nas_octet_size) ++ codes ".0"))

-- `clientIPByIndex`
unfoldable pub client_ip_by_index : ℕ → Text
client_ip_by_index i =
    codes "127.0."
    ++ (itoa (i / client_ip_per_octet + 1) ++ b'.' ∷ itoa (i % client_ip_per_octet + 1))

-- The root of the flow directories, by names, and the database.
pub record Load : Type 0 where
  pub dirs : List Text
  pub db : Db

-- `on conflict (ip) do update`: the row of that address is changed, or a row is added.
unfoldable pub upsert : OnlineSession → List OnlineSession → List OnlineSession
upsert s [] = s ∷ []
upsert s (r ∷ rows) = if r.ip == s.ip then s ∷ rows else r ∷ upsert s rows

unfoldable pub session_by_index : ℕ → OnlineSession
unfolding nas_ip_by_index client_ip_by_index
session_by_index i = record {
  sess_id = synthetic_sess_id_base + i;
  ip = client_ip_by_index i;
  nas_ip = nas_ip_by_index i;
}

-- How `Generate` of the flow generator ends: with a file, before it has made the directory, or
-- behind it.
pub data Generation : Type 0 where
  generated : Generation
  no_dir no_file : Error → Generation

-- What `seedLoad` and `cleanupLoad` meet.
pub record LoadEnv : Type 0 where
  pub generate : ℕ → Generation
  pub begin : Option Error
  pub prepare : Option Error
  pub exec : ℕ → Option Error
  pub commit : Commit
  pub read_root : Option Error
  pub remove_all : Text → Option Error
  pub delete_chunks : Option Error
  pub delete_sessions : Option Error

-- `MkdirAll` of a directory.
unfoldable pub with_dir : Text → List Text → List Text
with_dir name [] = name ∷ []
with_dir name (d ∷ dirs) = if d == name then d ∷ dirs else d ∷ with_dir name dirs

-- The rest of a loop, unless there is an error.
unfoldable pub unless_error {ℓ} :
    {A : Type ℓ} → Option Error → A → A × Option Error → A × Option Error
unless_error (some x) a rest = (a, some x)
unless_error none a rest = rest

module _ (e : LoadEnv) where
  unfoldable pub after_generate :
      (List Text → List Text × Option Error)
      → Text
      → List Text
      → Generation
      → List Text × Option Error
  unfolding with_dir
  after_generate more name dirs generated = more (with_dir name dirs)
  after_generate more name dirs (no_dir x) = (dirs, some x)
  after_generate more name dirs (no_file x) = (with_dir name dirs, some x)

  -- The first loop of `seedLoad`: `k` rounds from the index `i` on.
  unfoldable pub seed_dirs : ℕ → ℕ → List Text → List Text × Option Error
  unfolding after_generate nas_ip_by_index
  seed_dirs zero i dirs = (dirs, none)
  seed_dirs (suc k) i dirs =
      after_generate (seed_dirs k (suc i)) (nas_ip_by_index i) dirs (e.generate i)

  -- The second loop, inside the transaction.
  unfoldable pub seed_rows : ℕ → ℕ → List OnlineSession → List OnlineSession × Option Error
  unfolding unless_error upsert session_by_index
  seed_rows zero i rows = (rows, none)
  seed_rows (suc k) i rows =
      unless_error (e.exec i) rows (seed_rows k (suc i) (upsert (session_by_index i) rows))

  -- The end of the transaction: what is not committed is dropped.
  unfoldable pub seed_committed :
      Db → List OnlineSession × Option Error → Commit → Db × Option Error
  seed_committed db (rows, some x) commit = (db, some x)
  seed_committed db (rows, none) (refused x) = (db, some x)
  seed_committed db (rows, none) (applied_unanswered x) =
      (record db { online_session = rows }, some x)
  seed_committed db (rows, none) applied = (record db { online_session = rows }, none)

  unfoldable pub seed_db : ℕ → Db → Db × Option Error
  unfolding unless_error seed_rows seed_committed
  seed_db n db =
      unless_error e.begin db
        (unless_error e.prepare db (seed_committed db (seed_rows n 0 db.online_session) e.commit))

  unfoldable pub after_dirs : ℕ → Db → List Text × Option Error → Load × Option Error
  unfolding seed_db
  after_dirs n db (dirs, some x) = (record { dirs = dirs; db = db }, some x)
  after_dirs n db (dirs, none) = let r = seed_db n db in (record { dirs = dirs; db = r.0 }, r.1)

  -- `seedLoad`
  unfoldable pub seed_load : ℕ → Load → Load × Option Error
  unfolding after_dirs seed_dirs
  seed_load n l = after_dirs n l.db (seed_dirs n 0 l.dirs)

  unfoldable pub kept_first : Text → List Text × Option Error → List Text × Option Error
  kept_first name (dirs, o) = (name ∷ dirs, o)

  -- The loop of `cleanupLoad` over the directories: those with the synthetic prefix are removed.
  unfoldable pub remove_dirs : List Text → List Text × Option Error
  unfolding unless_error kept_first
  remove_dirs [] = ([], none)
  remove_dirs (name ∷ dirs) =
      let rest = remove_dirs dirs in
      if starts_with name synthetic_nas_prefix
      then unless_error (e.remove_all name) (name ∷ dirs) rest
      else kept_first name rest

  unfoldable pub delete_chunk_rows : Db → Db
  delete_chunk_rows db = record db {
    chunk = select (λ c. ltb c.sess_id synthetic_sess_id_base) db.chunk;
  }

  unfoldable pub delete_session_rows : Db → Db
  delete_session_rows db = record db {
    online_session = select (λ s. ltb s.sess_id synthetic_sess_id_base) db.online_session;
  }

  unfoldable pub cleanup_db : Db → Db × Option Error
  unfolding unless_error delete_chunk_rows delete_session_rows
  cleanup_db db =
      let chunks = delete_chunk_rows db in
      unless_error e.delete_chunks db
        (unless_error e.delete_sessions chunks (delete_session_rows chunks, none))

  unfoldable pub after_removal : Db → List Text × Option Error → Load × Option Error
  unfolding cleanup_db
  after_removal db (dirs, some x) = (record { dirs = dirs; db = db }, some x)
  after_removal db (dirs, none) = let r = cleanup_db db in (record { dirs = dirs; db = r.0 }, r.1)

  -- `cleanupLoad`
  unfoldable pub cleanup_load : Load → Load × Option Error
  unfolding unless_error after_removal remove_dirs
  cleanup_load l = unless_error e.read_root l (after_removal l.db (remove_dirs l.dirs))
