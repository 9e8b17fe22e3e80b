-- ===== src/Cycle/Laws.antt =====
-- What one cycle keeps, whatever fails in it, and which directories it leaves alone.
use aggregator_demo.Base.{
  ◌≡◌, ◌≢◌, refl, ◌∙◌, Bool, true, false, Option, none, some, List, [], ◌∷◌, text_eq, contains,
}
use aggregator_demo.Base.Text.{Text}
use aggregator_demo.Base.Map.{lookup, set_at-other}
use aggregator_demo.Entity.{OnlineSession, Result, ok, err, Outcome, done, panic}
use aggregator_demo.Traffic.{Net, ChannelMap}
use aggregator_demo.Database.{batch_row, row_eq}
use aggregator_demo.Storage.{file}
use aggregator_demo.Storage.Lookup.{tmp_has}
use aggregator_demo.Loaders.{SessionMap}
use aggregator_demo.Aggregator.Stages.{State}
use aggregator_demo.Aggregator.Once.{Guarded}
use aggregator_demo.Aggregator.Steady.{aggregate-IsSteady}
use aggregator_demo.Aggregator.Worlds.{
  World, arrived, IsSound, IsSound-arrived, Guarded-IsSound, IsSound-Guarded,
}
use aggregator_demo.Cycle.{
  CycleEnv, Running, caught, worked, handed, with_sessions, dispatch, with_maps, with_names,
  observe_cycle, read_flow_dir_names, start, Generation, file_name, default_nas_ip, with_file,
  generated,
}

caught-IsSound :
    (nas_ip : Text) (w : World) (r : State × Outcome (Unit {0}))
    → Guarded w.dirs nas_ip r.0.dir r.0.db
    → IsSound (caught nas_ip w r).world
unfolding caught
caught-IsSound nas_ip w (s, done _) g = IsSound-Guarded w.dirs nas_ip s.dir s.db g
caught-IsSound nas_ip w (s, panic) g = IsSound-Guarded w.dirs nas_ip s.dir s.db g

-- The name of a file that the cycle generates was not used before.
abbrev pub IsUnused : Option Generation → World → Type 0
IsUnused none w = Unit
IsUnused (some g) w =
    (tmp_has (file_name g) (w.dirs default_nas_ip) ≡ false)
    × (contains w.db.inserted (batch_row default_nas_ip (file_name g)) ≡ false)

with_file-IsSound :
    (w : World) (name : Text) (bytes : Option Text)
    → tmp_has name (w.dirs default_nas_ip) ≡ false
    → contains w.db.inserted (batch_row default_nas_ip name) ≡ false
    → IsSound w
    → IsSound (record w { dirs = with_file name bytes w.dirs })
unfolding with_file arrived
with_file-IsSound w name none h k g = record { guarded = g.guarded; once = g.once }
with_file-IsSound w name (some bytes) h k g =
    IsSound-arrived w default_nas_ip name (file bytes) h k g

generated-IsSound :
    (w : World) (at_default : Bool) (fgen : Option Generation)
    → IsUnused fgen w
    → IsSound w
    → IsSound (record w { dirs = generated at_default fgen w.dirs })
unfolding generated
generated-IsSound w at_default none u g = record { guarded = g.guarded; once = g.once }
generated-IsSound w false (some f) u g = record { guarded = g.guarded; once = g.once }
generated-IsSound w true (some f) (h, k) g = with_file-IsSound w (file_name f) _ h k g

module _ (e : CycleEnv) (n : Net) where
  worked-IsSound :
      (channel_map : ChannelMap) (nas_ip : Text) (sessions : List OnlineSession) (c : Running)
      → IsSound c.world
      → IsSound (worked e n channel_map nas_ip sessions c).world
  unfolding worked
  worked-IsSound channel_map nas_ip sessions c h =
      let s : State = record {
        dir = (c.world).dirs nas_ip;
        db = (c.world).db;
        events = c.events;
      } in
      caught-IsSound nas_ip c.world _ (
        aggregate-IsSteady (c.world).dirs nas_ip (e.worker_env nas_ip) sessions channel_map n s
          (Guarded-IsSound c.world nas_ip h))

  handed-IsSound :
      (more work : Running → Running) (b : Bool) (c : Running)
      → ((c : Running) → IsSound c.world → IsSound (more c).world)
      → ((c : Running) → IsSound c.world → IsSound (work c).world)
      → IsSound c.world
      → IsSound (handed e n more work b c).world
  unfolding handed
  handed-IsSound more work true c k l h = h
  handed-IsSound more work false c k l h = k (work c) (l c h)

  with_sessions-IsSound :
      (more : Running → Running) (channel_map : ChannelMap) (nas_ip : Text)
      (o : Option (List OnlineSession)) (c : Running)
      → ((c : Running) → IsSound c.world → IsSound (more c).world)
      → IsSound c.world
      → IsSound (with_sessions e n more channel_map nas_ip o c).world
  unfolding with_sessions
  with_sessions-IsSound more channel_map nas_ip none c k h = k c h
  with_sessions-IsSound more channel_map nas_ip (some sessions) c k h =
      handed-IsSound more (worked e n channel_map nas_ip sessions) (e.is_cancelled nas_ip) c k
        (worked-IsSound channel_map nas_ip sessions) h

  dispatch-IsSound :
      (channel_map : ChannelMap) (session_map : SessionMap) (names : List Text) (c : Running)
      → IsSound c.world
      → IsSound (dispatch e n channel_map session_map names c).world
  unfolding dispatch
  dispatch-IsSound channel_map session_map [] c h = h
  dispatch-IsSound channel_map session_map (nas_ip ∷ names) c h =
      with_sessions-IsSound (dispatch e n channel_map session_map names) channel_map nas_ip
        (lookup nas_ip session_map) c (dispatch-IsSound channel_map session_map names) h

  with_maps-IsSound :
      (names : List Text) (channels : Option ChannelMap) (sessions : Option SessionMap)
      (c : Running)
      → IsSound c.world
      → IsSound (with_maps e n names channels sessions c).world
  unfolding with_maps observe_cycle
  with_maps-IsSound names (some channel_map) (some session_map) c h =
      dispatch-IsSound channel_map session_map names c h
  with_maps-IsSound names none sessions c h = h
  with_maps-IsSound names (some channel_map) none c h = h

  with_names-IsSound :
      (r : Result (List Text)) (c : Running) → IsSound c.world → IsSound (with_names e n r c).world
  unfolding with_names observe_cycle
  with_names-IsSound (err x) c h = h
  with_names-IsSound (ok names) c h = with_maps-IsSound names _ _ _ h

  -- One cycle of `Start` keeps the invariant of the checkpoint for all directories, whatever
  -- fails in it and whichever workers panic. If it generates a flow file, with or without a fault,
  -- the name of that file was not used before.
  pub start-IsSound :
      (c : Running) → IsUnused e.fgen c.world → IsSound c.world → IsSound (start e n c).world
  unfolding start
  start-IsSound c u h =
      with_names-IsSound (read_flow_dir_names e.read_roots e.roots) _
        (generated-IsSound c.world e.at_default e.fgen u h)

  caught-apart :
      (nas_ip j : Text) (w : World) (r : State × Outcome (Unit {0}))
      → j ≢ nas_ip
      → (caught nas_ip w r).world.dirs j ≡ w.dirs j
  unfolding caught
  caught-apart nas_ip j w (s, done _) p = set_at-other w.dirs nas_ip s.dir j p
  caught-apart nas_ip j w (s, panic) p = set_at-other w.dirs nas_ip s.dir j p

  module _ (channel_map : ChannelMap) (session_map : SessionMap) (j : Text) where
    -- The directory `j` is as it was.
    abbrev Untouched : (Running → Running) → Type 0
    Untouched f = (c : Running) → (f c).world.dirs j ≡ (c.world).dirs j

    handed-apart :
        (more work : Running → Running) (b : Bool)
        → Untouched more
        → Untouched work
        → Untouched (handed e n more work b)
    unfolding handed
    handed-apart more work true k l c = refl
    handed-apart more work false k l c = k (work c) ∙ l c

    with_sessions-apart :
        (more : Running → Running) (nas_ip : Text) (o : Option (List OnlineSession))
        → lookup nas_ip session_map ≡ o
        → lookup j session_map ≡ none
        → Untouched more
        → Untouched (with_sessions e n more channel_map nas_ip o)
    unfolding with_sessions worked
    with_sessions-apart more nas_ip none h k m c = m c
    with_sessions-apart more nas_ip (some sessions) h k m c =
        handed-apart more (worked e n channel_map nas_ip sessions) (e.is_cancelled nas_ip) m
          (λ d. caught-apart nas_ip j d.world _ (λ p. cc (p, h, k))) c

    -- A directory whose name is no key of the session map is left as it was by the workers of a
    -- cycle.
    pub dispatch-apart :
        (names : List Text) (c : Running)
        → lookup j session_map ≡ none
        → (dispatch e n channel_map session_map names c).world.dirs j ≡ (c.world).dirs j
    unfolding dispatch
    dispatch-apart [] c h = refl
    dispatch-apart (nas_ip ∷ names) c h =
        with_sessions-apart (dispatch e n channel_map session_map names) nas_ip
          (lookup nas_ip session_map) refl h (λ d. dispatch-apart names d h) c
