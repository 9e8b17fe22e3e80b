-- ===== src/Cycle.antt =====
-- `Start` of src/internal/usecase/aggregator.go: one cycle. The directories are listed, the two maps
-- are loaded, and each directory with a session is given to the pool. The model runs the workers one
-- after the other, in the order in which they are given to the pool. Logs, spans and durations are left
-- out.
pub mod Laws
pub mod Others
pub mod Finished
pub mod Settled
use aggregator_demo.Base.{
  ℕ, Bool, true, false, Option, none, some, List, [], ◌∷◌, ◌++◌, length, text_eq, if◌then◌else◌,
}
use aggregator_demo.Base.Text.{Text, codes}
use aggregator_demo.Base.Map.{lookup, set_at}
use aggregator_demo.Entity.{Error, no_data, OnlineSession, Result, ok, err, Outcome, done, panic}
use aggregator_demo.Traffic.{Net, ChannelMap}
use aggregator_demo.Metrics.{
  Event, inc_cycle_error, dirs_read, nil_maps, set_nas_discovered, set_cycle_in_progress,
  set_last_success, inc_worker_panic,
}
use aggregator_demo.Database.{Db}
use aggregator_demo.Storage.{NasDir, file, place}
use aggregator_demo.Flowgen.{Params, Draw, Generated, generate}
use aggregator_demo.Loaders.{SessionMap, send_channel_map, send_online_session_map}
use aggregator_demo.Aggregator.Save.{Env}
use aggregator_demo.Aggregator.Stages.{State, aggregate}
use aggregator_demo.Aggregator.Worlds.{World}

-- An entry of the root directory: its name, and whether it is a directory.
abbrev pub RootEntry : Type 0
RootEntry = Text × Bool

unfoldable pub directory_names : List RootEntry → List Text
directory_names [] = []
directory_names ((name, true) ∷ entries) = name ∷ directory_names entries
directory_names ((name, false) ∷ entries) = directory_names entries

unfoldable pub some_names : List Text → Result (List Text)
some_names [] = err no_data
some_names (name ∷ names) = ok (name ∷ names)

-- `ReadFlowDirNames`
unfoldable pub read_flow_dir_names : Option Error → List RootEntry → Result (List Text)
unfolding directory_names some_names
read_flow_dir_names none entries = some_names (directory_names entries)
read_flow_dir_names (some e) entries = err e

abbrev pub default_nas_ip : Text
default_nas_ip = codes "127.0.0.0"

abbrev pub default_params : Params
default_params = record {
  nas_ip = default_nas_ip;
  client_ip = codes "127.0.0.1";
  flow_dir = codes "./flow";
}

-- What `Generate` meets in a cycle: what is drawn, the time in the name of the file, the faults, and
-- what a write that fails leaves of the file.
pub record Generation : Type 0 where
  pub draws : ℕ → Draw
  pub time : Text
  pub mkdir : Option Error
  pub write : Option Error
  pub partial : Option Text

abbrev pub file_name : Generation → Text
file_name g = codes "ft-" ++ g.time

-- The bytes that stand in the new file, by what `Generate` gives.
unfoldable pub left_behind : Generation → Option Error → Generated × Option Error → Option Text
left_behind g (some x) r = none
left_behind g none (r, none) = some r.flow_bytes
left_behind g none (r, some x) = g.partial

unfoldable pub with_file : Text → Option Text → (Text → NasDir) → Text → NasDir
unfolding set_at place
with_file name none dirs = dirs
with_file name (some bytes) dirs =
    let d = dirs default_nas_ip in
    set_at dirs default_nas_ip (record d { entries = place name (file bytes) d.entries })

-- The call of `Generate` at the begin of a cycle, if `FLOWGEN` is "true". The file always comes to
-- stand under `./flow`, which are the directories of the aggregator only if it is configured so.
unfoldable pub generated : Bool → Option Generation → (Text → NasDir) → Text → NasDir
unfolding with_file left_behind generate
generated at_default none dirs = dirs
generated false (some g) dirs = dirs
generated true (some g) dirs =
    with_file (file_name g)
      (left_behind g g.mkdir (generate default_params g.draws g.mkdir g.write)) dirs

-- What a cycle meets: faults, the entries of the root, the environment of each worker, and whether
-- the context has ended when a directory is to be given to the pool.
pub record CycleEnv : Type 0 where
  pub fgen : Option Generation
  -- the configured directory of flow files is `./flow`
  pub at_default : Bool
  pub roots : List RootEntry
  pub read_roots : Option Error
  pub begin_channels : Option Error
  pub query_channels : Option Error
  pub begin_sessions : Option Error
  pub query_sessions : Option Error
  pub worker_env : Text → Env
  pub is_cancelled : Text → Bool

pub record Running : Type 0 where
  pub world : World
  pub events : List Event

abbrev pub observed : Event → Running → Running
observed x c = record c { events = x ∷ c.events }

-- The pool catches the panic of a worker.
unfoldable pub caught : Text → World → State × Outcome (Unit {0}) → Running
unfolding set_at
caught nas_ip w (s, done _) = record {
  world = record { dirs = set_at w.dirs nas_ip s.dir; db = s.db };
  events = s.events;
}
caught nas_ip w (s, panic) = record {
  world = record { dirs = set_at w.dirs nas_ip s.dir; db = s.db };
  events = inc_worker_panic ∷ s.events;
}

module _ (e : CycleEnv) (n : Net) where
  unfoldable pub worked : ChannelMap → Text → List OnlineSession → Running → Running
  unfolding caught aggregate
  worked channel_map nas_ip sessions c = caught nas_ip c.world (
      aggregate (e.worker_env nas_ip) nas_ip sessions channel_map n
        (record { dir = (c.world).dirs nas_ip; db = (c.world).db; events = c.events }))

  -- A directory without sessions is passed over; when the context has ended, so are all others.
  unfoldable pub handed : (Running → Running) → (Running → Running) → Bool → Running → Running
  handed more work true c = c
  handed more work false c = more (work c)

  unfoldable pub with_sessions :
      (Running → Running) → ChannelMap → Text → Option (List OnlineSession) → Running → Running
  unfolding handed worked
  with_sessions more channel_map nas_ip none c = more c
  with_sessions more channel_map nas_ip (some sessions) c =
      handed more (worked channel_map nas_ip sessions) (e.is_cancelled nas_ip) c

  -- The loop over `dirList`
  unfoldable pub dispatch : ChannelMap → SessionMap → List Text → Running → Running
  unfolding with_sessions lookup
  dispatch channel_map session_map [] c = c
  dispatch channel_map session_map (nas_ip ∷ names) c =
      with_sessions (dispatch channel_map session_map names) channel_map nas_ip
        (lookup nas_ip session_map) c

  -- From the test of the two maps; `observeCycle` runs at the end of each branch.
  unfoldable pub observe_cycle : Bool → Running → Running
  observe_cycle true c = observed set_last_success (observed (set_cycle_in_progress false) c)
  observe_cycle false c = observed (set_cycle_in_progress false) c

  unfoldable pub with_maps : List Text → Option ChannelMap → Option SessionMap → Running → Running
  unfolding observe_cycle dispatch
  with_maps names (some channel_map) (some session_map) c =
      observe_cycle true (dispatch channel_map session_map names c)
  with_maps names none sessions c = observe_cycle false (observed (inc_cycle_error nil_maps) c)
  with_maps names (some channel_map) none c =
      observe_cycle false (observed (inc_cycle_error nil_maps) c)

  unfoldable pub with_names : Result (List Text) → Running → Running
  unfolding with_maps observe_cycle send_channel_map send_online_session_map
  with_names (err x) c = observe_cycle false (observed (inc_cycle_error dirs_read) c)
  with_names (ok names) c =
      let db = (c.world).db in
      with_maps names (send_channel_map e.begin_channels e.query_channels db)
        (send_online_session_map e.begin_sessions e.query_sessions db)
        (observed (set_nas_discovered (length names)) c)

  -- `Start`
  unfoldable pub start : Running → Running
  unfolding with_names read_flow_dir_names generated
  start c =
      with_names (read_flow_dir_names e.read_roots e.roots)
        (record (observed (set_cycle_in_progress true) c) {
          world = record c.world { dirs = generated e.at_default e.fgen (c.world).dirs };
        })
