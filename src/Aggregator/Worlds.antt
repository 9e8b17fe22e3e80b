-- ===== src/Aggregator/Worlds.antt =====
-- All directories and the database over time: collectors put new flow files into a directory, and
-- runs of `Aggregate`, of any worker in any order and with any failures, change one directory and
-- the database. The pool runs the workers of different directories at the same time; what they
-- share is the database, where each of them reads and writes only the rows of its own directory.
use mathlib.Core.Path.{subst}
use aggregator_demo.Base.{◌≡◌, refl, sym, false, none, List, [], arith, text_eq, contains}
use aggregator_demo.Base.Text.{Text}
use aggregator_demo.Base.Map.{set_at, set_at-same, set_at-other}
use aggregator_demo.Entity.{OnlineSession}
use aggregator_demo.Traffic.{Net, ChannelMap}
use aggregator_demo.Database.{batch_row, row_eq, Db}
use aggregator_demo.Storage.{Node, NasDir, place}
use aggregator_demo.Storage.Lookup.{tmp_has, lookup-place}
use aggregator_demo.Aggregator.Save.{Env}
use aggregator_demo.Aggregator.Stages.{State, aggregate}
use aggregator_demo.Aggregator.Guard.{Once, IsGuarded}
use aggregator_demo.Aggregator.Once.{Guarded}
use aggregator_demo.Aggregator.Steady.{aggregate-IsSteady}

pub record World : Type 0 where
  pub dirs : Text → NasDir
  pub db : Db

unfoldable pub arrived : World → Text → Text → Node → World
unfolding set_at place
arrived w nas_ip name node =
    let d = w.dirs nas_ip in
    record w { dirs = set_at w.dirs nas_ip (record d { entries = place name node d.entries }) }

-- One run of a worker.
unfoldable pub ran : Env → Text → List OnlineSession → ChannelMap → Net → World → World
unfolding set_at aggregate
ran e nas_ip sessions channel_map n w =
    let s =
      (aggregate e nas_ip sessions channel_map n
        (record { dir = w.dirs nas_ip; db = w.db; events = [] })).0 in
    record { dirs = set_at w.dirs nas_ip s.dir; db = s.db }

-- The name of a file that arrives was not used before: it is neither in `tmp` nor in the log.
pub data Step : World → World → Type 0 where
  arrives :
      (w : World) (nas_ip name : Text) (node : Node)
      → tmp_has name (w.dirs nas_ip) ≡ false
      → contains w.db.inserted (batch_row nas_ip name) ≡ false
      → Step w (arrived w nas_ip name node)
  runs :
      (w : World) (e : Env) (nas_ip : Text) (sessions : List OnlineSession)
      (channel_map : ChannelMap) (n : Net)
      → Step w (ran e nas_ip sessions channel_map n w)

-- A start from directories without files and a database without a checkpoint, then steps.
pub data Reachable : World → Type 0 where
  empty :
      (w : World)
      → ((j : Text) → w.dirs j ≡ record { entries = []; tmp = none })
      → w.db.inserted ≡ []
      → Reachable w
  next : (w w' : World) → Reachable w → Step w w' → Reachable w'

pub record IsSound (w : World) : Type 0 where
  pub guarded : (j : Text) → IsGuarded j (w.dirs j) w.db
  pub once : Once w.db.inserted

pub Guarded-IsSound :
    (w : World) (nas_ip : Text) → IsSound w → Guarded w.dirs nas_ip (w.dirs nas_ip) w.db
Guarded-IsSound w nas_ip h = record {
  own = h.guarded nas_ip;
  rest = λ j _. h.guarded j;
  once = h.once;
}

pub IsSound-Guarded :
    (dirs : Text → NasDir) (nas_ip : Text) (d : NasDir) (db : Db)
    → Guarded dirs nas_ip d db
    → IsSound (record { dirs = set_at dirs nas_ip d; db = db })
IsSound-Guarded dirs nas_ip d db g = record {
  guarded = λ j. elim (text_eq.dec j nas_ip) [
    | yes p ↦ rw (set_at-same dirs nas_ip d j p) (subst (λ i. IsGuarded i d db) (sym p) g.own)
    | no p ↦ rw (set_at-other dirs nas_ip d j p) (g.rest j p)
  ];
  once = g.once;
}

IsGuarded-arrived :
    (w : World) (nas_ip name : Text) (node : Node)
    → tmp_has name (w.dirs nas_ip) ≡ false
    → contains w.db.inserted (batch_row nas_ip name) ≡ false
    → IsGuarded nas_ip (w.dirs nas_ip) w.db
    → IsGuarded nas_ip
        (record (w.dirs nas_ip) { entries = place name node (w.dirs nas_ip).entries })
        w.db
IsGuarded-arrived w nas_ip name node h k g =
    let d = w.dirs nas_ip in
    record {
      waiting = λ f p. elim (text_eq.dec f name) [
        | yes q ↦ rw q k
        | no q ↦ g.waiting f (ground (arith, lookup-place f name node d.entries))
      ];
      marked = g.marked;
      apart = λ f q p. elim (text_eq.dec f name) [
        | yes q ↦ subst (λ x. tmp_has x (w.dirs nas_ip) ≡ false) (sym q) h
        | no r ↦ g.apart f q (ground (arith, lookup-place f name node d.entries))
      ];
    }

pub IsSound-arrived :
    (w : World) (nas_ip name : Text) (node : Node)
    → tmp_has name (w.dirs nas_ip) ≡ false
    → contains w.db.inserted (batch_row nas_ip name) ≡ false
    → IsSound w
    → IsSound (arrived w nas_ip name node)
unfolding arrived
IsSound-arrived w nas_ip name node h k g =
    let d = w.dirs nas_ip in
    IsSound-Guarded w.dirs nas_ip (record d { entries = place name node d.entries }) w.db
      (record {
        own = IsGuarded-arrived w nas_ip name node h k (g.guarded nas_ip);
        rest = λ j _. g.guarded j;
        once = g.once;
      })

pub IsSound-empty :
    (w : World)
    → ((j : Text) → w.dirs j ≡ record { entries = []; tmp = none })
    → w.db.inserted ≡ []
    → IsSound w
IsSound-empty w h k = record {
  guarded = λ j. rw (h j) (record {
    waiting = λ f p. rw k refl;
    marked = λ f p q r. absurd (cc q);
    apart = λ f p q. refl;
  });
  once = rw k tt;
}

IsSound-Step : (w w' : World) → Step w w' → IsSound w → IsSound w'
IsSound-Step w _ (arrives _ nas_ip name node h k) g = IsSound-arrived w nas_ip name node h k g
IsSound-Step w _ (runs _ e nas_ip sessions channel_map n) g =
    let start : State = record { dir = w.dirs nas_ip; db = w.db; events = [] } in
    let s = (aggregate e nas_ip sessions channel_map n start).0 in
    unfold ran in
    IsSound-Guarded w.dirs nas_ip s.dir s.db
      (aggregate-IsSteady w.dirs nas_ip e sessions channel_map n start (Guarded-IsSound w nas_ip g))

Reachable-IsSound : (w : World) → Reachable w → IsSound w
Reachable-IsSound w (empty _ h k) = IsSound-empty w h k
Reachable-IsSound w (next v _ r s) = IsSound-Step v w s (Reachable-IsSound v r)

-- Start from directories without files and an empty checkpoint. After any sequence of arrivals of new
-- flow files and runs of `Aggregate`, with any faults in each of them, no row stands twice in the log
-- of all rows that were ever inserted into the checkpoint.
pub no_row_twice : (w : World) → Reachable w → Once w.db.inserted
no_row_twice w r = (Reachable-IsSound w r).once
