-- ===== src/Machine/Interleaved.antt =====
-- The workers of all directories at the same time: every step is a step of one worker on its own
-- directory and the shared database, or an arrival of a flow file, or a restart of one worker. Each
-- step of a worker has its own environment, so that it may fail in any way and at any point.
use aggregator_demo.Base.{
  ◌≡◌, Bool, true, false, ◌||◌, ◌&&◌, Option, none, All, List, [], ◌∷◌, ◌++◌, ◌==◌, text_eq,
  if◌then◌else◌, contains,
}
use aggregator_demo.Base.Text.{Text}
use aggregator_demo.Base.Map.{set_at}
use aggregator_demo.Entity.{OnlineSession, Chunk}
use aggregator_demo.Traffic.{Net, ChannelMap}
use aggregator_demo.Database.{batch_row, row_eq, Db}
use aggregator_demo.Storage.{Node, Dir, NasDir, place}
use aggregator_demo.Storage.Ready.{tmp_entries}
use aggregator_demo.Machine.Reading.{IsReadFrom}
use aggregator_demo.Storage.Lookup.{tmp_has}
use aggregator_demo.Aggregator.Save.{Env}
use aggregator_demo.Machine.{
  Point, start, loaded, saving, cleaning, cleaned, stopped, local, advance,
}
use aggregator_demo.Machine.Applied.{save_applied}

-- A save that the database has applied: whose it was, the files that were read for it, its chunks,
-- and the entries of `tmp` at the time. The program does not keep these: they are there for statements about whole runs.
pub record Save : Type 0 where
  pub nas_ip : Text
  pub fresh : List Text
  pub chunks : List Chunk
  pub tmp : Dir

-- The last save comes first.
pub record Service : Type 0 where
  pub dirs : Text → NasDir
  pub points : Text → Point
  pub db : Db
  pub saves : List Save

-- The file was read for one of the saves.
abbrev pub was_read : List Save → Text → Text → Bool
was_read [] j f = false
was_read (s ∷ saves) j f = (j == s.nas_ip && contains s.fresh f) || was_read saves j f

-- No file was read for two saves.
abbrev pub NoneTwice : List Save → Type 0
NoneTwice [] = Unit
NoneTwice (s ∷ saves) =
    ((f : Text) → contains s.fresh f ≡ true → was_read saves s.nas_ip f ≡ false) × NoneTwice saves

-- The chunks of each save are the sums of all lines of its files, which were in `tmp`, and of no
-- other file.
abbrev pub AreRead : List Save → Type 0
AreRead = All (λ (s : Save). IsReadFrom s.tmp s.fresh s.chunks)

-- The chunks of the saves, from the first save on.
abbrev pub all_chunks : List Save → List Chunk
all_chunks [] = []
all_chunks (s ∷ saves) = all_chunks saves ++ s.chunks

unfoldable pub with_save : Env → Text → Option Dir → Point → List Save → List Save
with_save e nas_ip tmp (saving fresh names chunks) saves =
    if save_applied e nas_ip chunks names
    then record { nas_ip = nas_ip; fresh = fresh; chunks = chunks; tmp = tmp_entries tmp } ∷ saves
    else saves
with_save e nas_ip tmp start saves = saves
with_save e nas_ip tmp (loaded committed) saves = saves
with_save e nas_ip tmp (cleaning reason) saves = saves
with_save e nas_ip tmp cleaned saves = saves
with_save e nas_ip tmp stopped saves = saves

unfoldable pub moved : Env → Text → List OnlineSession → ChannelMap → Net → Service → Service
unfolding advance set_at with_save
moved e nas_ip sessions channel_map n w =
    let l =
      advance e nas_ip sessions channel_map n (local (w.points nas_ip) (w.dirs nas_ip) w.db) in
    record {
      dirs = set_at w.dirs nas_ip l.dir;
      points = set_at w.points nas_ip l.point;
      db = l.db;
      saves = with_save e nas_ip (w.dirs nas_ip).tmp (w.points nas_ip) w.saves;
    }

unfoldable pub put : Service → Text → Text → Node → Service
unfolding set_at place
put w nas_ip name node =
    let d = w.dirs nas_ip in
    record w { dirs = set_at w.dirs nas_ip (record d { entries = place name node d.entries }) }

-- The environments of the steps meet `A`. The name of a file that arrives was not used before. A
-- worker that restarts was killed at any point, or has ended and begins the next cycle.
pub data Move (A : Env → Type 0) : Service → Service → Type 0 where
  arrives :
      (w : Service) (nas_ip name : Text) (node : Node)
      → tmp_has name (w.dirs nas_ip) ≡ false
      → contains w.db.inserted (batch_row nas_ip name) ≡ false
      → Move A w (put w nas_ip name node)
  moves :
      (w : Service) (e : Env) (nas_ip : Text) (sessions : List OnlineSession)
      (channel_map : ChannelMap) (n : Net)
      → A e
      → Move A w (moved e nas_ip sessions channel_map n w)
  restarts :
      (w : Service) (nas_ip : Text) → Move A w (record w { points = set_at w.points nas_ip start })

pub data Reached (A : Env → Type 0) : Service → Type 0 where
  empty :
      (w : Service)
      → ((j : Text) → w.dirs j ≡ record { entries = []; tmp = none })
      → ((j : Text) → w.points j ≡ start)
      → w.db.inserted ≡ []
      → w.db.flow_batch ≡ []
      → w.db.chunk ≡ []
      → w.saves ≡ []
      → Reached A w
  next : (w w' : Service) → Reached A w → Move A w w' → Reached A w'
