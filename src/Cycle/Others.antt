-- ===== src/Cycle/Others.antt =====
-- What the worker of one directory leaves of another in a cycle, and what it adds to the table of chunks.
use mathlib.Core.Path.{subst}
use mathlib.Core.List.{append_assoc, append-nil}
use aggregator_demo.Base.{
  ◌≡◌, ◌≢◌, refl, sym, ◌++◌, ap, ◌∙◌, Bool, true, false, Option, none, some, List, [], ◌∷◌, arith,
  text_eq, contains,
}
use aggregator_demo.Base.Text.{Text}
use aggregator_demo.Base.Map.{lookup, set_at-same, set_at-other}
use aggregator_demo.Entity.{OnlineSession, Chunk, Outcome, done, panic}
use aggregator_demo.Traffic.{Net, ChannelMap}
use aggregator_demo.Loaders.{SessionMap}
use aggregator_demo.Aggregator.Stages.{State, aggregate}
use aggregator_demo.Aggregator.Worlds.{World}
use aggregator_demo.Aggregator.Healthy.{rows_at}
use aggregator_demo.Aggregator.Apart.{aggregate-keeps, aggregate-rows_at}
use aggregator_demo.Aggregator.Atomic.{saved}
use aggregator_demo.Aggregator.Chunks.{chunks_of, apply_all-chunk}
use aggregator_demo.Aggregator.Save.{Env}
use aggregator_demo.Database.{Db, apply}
use aggregator_demo.Cycle.{CycleEnv, Running, caught, worked, handed, with_sessions, dispatch}

-- What a run of a worker is caught with.
module _ (nas_ip : Text) (w : World) where
  pub caught-own :
      (r : State × Outcome (Unit {0})) → (caught nas_ip w r).world.dirs nas_ip ≡ r.0.dir
  unfolding caught
  caught-own (s, done _) = set_at-same w.dirs nas_ip s.dir nas_ip refl
  caught-own (s, panic) = set_at-same w.dirs nas_ip s.dir nas_ip refl

  pub caught-db : (r : State × Outcome (Unit {0})) → (caught nas_ip w r).world.db ≡ r.0.db
  unfolding caught
  caught-db (s, done _) = refl
  caught-db (s, panic) = refl

  caught-others :
      (j : Text) (r : State × Outcome (Unit {0}))
      → j ≢ nas_ip
      → (caught nas_ip w r).world.dirs j ≡ w.dirs j
  unfolding caught
  caught-others j (s, done _) p = set_at-other w.dirs nas_ip s.dir j p
  caught-others j (s, panic) p = set_at-other w.dirs nas_ip s.dir j p

-- The table of chunks has some more behind those that it had.
pub record Grows (db db' : Db) : Type 0 where
  pub more : List Chunk
  pub appended : db'.chunk ≡ db.chunk ++ more

pub Grows-refl : (db : Db) → Grows db db
Grows-refl db = record { more = []; appended = sym (append-nil db.chunk) }

Grows-trans : {a b c : Db} → Grows a b → Grows b c → Grows a c
Grows-trans {a} g h = record {
  more = g.more ++ h.more;
  appended = h.appended ∙ ap (λ x. x ++ h.more) g.appended ∙ append_assoc a.chunk g.more h.more;
}

-- A run of `Aggregate` only adds to the table of chunks, whatever fails in it.
aggregate-Grows :
    (nas_ip : Text) (e : Env) (sessions : List OnlineSession) (channel_map : ChannelMap) (n : Net)
    (s : State)
    → Grows s.db (aggregate e nas_ip sessions channel_map n s).0.db
aggregate-Grows nas_ip e sessions channel_map n s =
    aggregate-keeps nas_ip (Grows s.db)
      (λ e chunks names db g. Grows-trans g (record {
        more = chunks_of (saved e nas_ip chunks names);
        appended = apply_all-chunk (saved e nas_ip chunks names) db;
      }))
      (λ db g. record { more = g.more; appended = unfold apply in g.appended }) e sessions
      channel_map n s (Grows-refl s.db)

-- No name stands twice.
abbrev pub Distinct : List Text → Type 0
Distinct [] = Unit
Distinct (j ∷ names) = (contains names j ≡ false) × Distinct names

-- The directory and its rows are as they were, and no chunk is gone.
pub record IsSame (nas : Text) (w w' : World) : Type 0 where
  pub dir : w'.dirs nas ≡ w.dirs nas
  pub rows : rows_at nas w'.db ≡ rows_at nas w.db
  pub grows : Grows w.db w'.db

pub IsSame-refl : (nas : Text) (w : World) → IsSame nas w w
IsSame-refl nas w = record { dir = refl; rows = refl; grows = Grows-refl w.db }

pub IsSame-trans :
    {nas : Text} {w w' w'' : World} → IsSame nas w w' → IsSame nas w' w'' → IsSame nas w w''
IsSame-trans a b = record {
  dir = b.dir ∙ a.dir;
  rows = b.rows ∙ a.rows;
  grows = Grows-trans a.grows b.grows;
}

module _ (e : CycleEnv) (n : Net) (channel_map : ChannelMap) (session_map : SessionMap)
    (nas : Text) where
  pub worked-IsSame :
      (j : Text) (sessions : List OnlineSession) (c : Running)
      → nas ≢ j
      → IsSame nas c.world (worked e n channel_map j sessions c).world
  unfolding worked
  worked-IsSame j sessions c p =
      let s : State = record { dir = (c.world).dirs j; db = (c.world).db; events = c.events } in
      let r = aggregate (e.worker_env j) j sessions channel_map n s in
      record {
        dir = caught-others j c.world nas r p;
        rows =
            ap (rows_at nas) (caught-db j c.world r)
            ∙ aggregate-rows_at nas j p (e.worker_env j) sessions channel_map n s;
        grows =
            subst (Grows c.world.db) (sym (caught-db j c.world r))
              (aggregate-Grows j (e.worker_env j) sessions channel_map n s);
      }

  handed-IsSame :
      (more work : Running → Running) (b : Bool)
      → ((c : Running) → IsSame nas c.world (more c).world)
      → ((c : Running) → IsSame nas c.world (work c).world)
      → (c : Running) → IsSame nas c.world (handed e n more work b c).world
  unfolding handed
  handed-IsSame more work true k l c = IsSame-refl nas c.world
  handed-IsSame more work false k l c = IsSame-trans (l c) (k (work c))

  with_sessions-IsSame :
      (more : Running → Running) (j : Text) (o : Option (List OnlineSession))
      → nas ≢ j
      → ((c : Running) → IsSame nas c.world (more c).world)
      → (c : Running) → IsSame nas c.world (with_sessions e n more channel_map j o c).world
  unfolding with_sessions
  with_sessions-IsSame more j none p k c = k c
  with_sessions-IsSame more j (some sessions) p k c =
      handed-IsSame more (worked e n channel_map j sessions) (e.is_cancelled j) k
        (λ c. worked-IsSame j sessions c p) c

  pub dispatch-IsSame :
      (names : List Text)
      → contains names nas ≡ false
      → (c : Running) → IsSame nas c.world (dispatch e n channel_map session_map names c).world
  unfolding dispatch
  dispatch-IsSame [] h c = IsSame-refl nas c.world
  dispatch-IsSame (j ∷ names) h c =
      with_sessions-IsSame (dispatch e n channel_map session_map names) j (lookup j session_map)
        (ground arith) (dispatch-IsSame names (ground arith)) c
