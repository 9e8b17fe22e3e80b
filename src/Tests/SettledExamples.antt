-- ===== src/Tests/SettledExamples.antt =====
-- A run in which no call fails, at the data of the tests.
use aggregator_demo.Base.{
  ◌≡◌, refl, sym, ap, ◌∙◌, arith, true, none, some, [], ◌∷◌, ◌==◌, false, if◌then◌else◌, text_eq,
  nat_eq,
}
use aggregator_demo.Base.Text.{codes, split, has_infix, starts_with}
use aggregator_demo.Base.Map.{lookup, has, NodupKeys}
use aggregator_demo.Storage.{file}
use aggregator_demo.Storage.Ready.{IsReady, scan_error}
use aggregator_demo.Storage.Scan.{scan}
use aggregator_demo.Storage.Lookup.{is_flow_name}
use aggregator_demo.Storage.Complete.{is_file}
use aggregator_demo.Aggregator.Healthy.{healthy}
use aggregator_demo.Aggregator.Stages.{State}
use aggregator_demo.Entity.{other}
use aggregator_demo.Loaders.{send_channel_map, send_online_session_map}
use aggregator_demo.Cycle.{CycleEnv, Running, read_flow_dir_names, start, generated}
use aggregator_demo.Cycle.Finished.{Finished}
use aggregator_demo.Flow.Pending.{IsApart}
use aggregator_demo.Cycle.Settled.{HasNew, begun, start-Finished}
use aggregator_demo.Tests.Data.{empty_db, net, nas, client, start_state, dir, flow_file}

-- An earlier run has left a file in `tmp`.
abbrev left_over : State
left_over = record start_state {
  dir = record dir { tmp = some ((codes "ft-0", file flow_file) ∷ []) };
}

left_over_unique : NodupKeys left_over.dir.entries
unfolding lookup text_eq
left_over_unique = (refl, (refl, tt))

left_over-IsReady : IsReady left_over.dir
unfolding scan_error scan split nat_eq
left_over-IsReady = record { outside = (refl, (refl, tt)); inside = (refl, tt) }

left_over-other : has (codes "ft-0") left_over.dir.entries ≡ false
unfolding lookup text_eq nat_eq
left_over-other = refl

left_over-IsApart : IsApart left_over.dir
unfolding lookup
left_over-IsApart f flow h = elim (text_eq.dec f (codes "ft-0")) [
  | yes p ↦
      let q : true ≡ false = sym h ∙ ap (λ x. has x left_over.dir.entries) p ∙ left_over-other in
      absurd (cc q)
  | no p ↦ ground arith
]

left_over_flow : is_flow_name (codes "ft-1") ≡ true
unfolding has_infix starts_with nat_eq
left_over_flow = refl

left_over_file : is_file (lookup (codes "ft-1") left_over.dir.entries) ≡ true
unfolding lookup text_eq
left_over_file = refl

-- A cycle in which the worker of any other directory fails to begin its first transaction.
abbrev cycle_env : CycleEnv
cycle_env = record {
  fgen = none;
  at_default = true;
  roots = (codes "other", true) ∷ (nas, true) ∷ [];
  read_roots = none;
  begin_channels = none;
  query_channels = none;
  begin_sessions = none;
  query_sessions = none;
  worker_env = λ j. if j == nas then healthy else record healthy { begin_load = some (other 1) };
  is_cancelled = λ _. false;
}

abbrev running : Running
running = record {
  world = record {
    dirs = λ j. left_over.dir;
    db = record empty_db {
      channel = record { id = 1; enabled = true; descr = [] } ∷ [];
      online_session = client ∷ record client { nas_ip = codes "other" } ∷ [];
    };
  };
  events = [];
}

running_channels : send_channel_map none none running.world.db ≡ some ((1, true) ∷ [])
unfolding send_channel_map
running_channels = refl

running_sessions :
    send_online_session_map none none running.world.db
    ≡ some
        ((nas, client ∷ []) ∷ (codes "other", record client { nas_ip = codes "other" } ∷ []) ∷ [])
unfolding send_online_session_map text_eq lookup
running_sessions = refl

running-HasNew : HasNew nas (begun cycle_env running)
unfolding generated
running-HasNew = record {
  unique = left_over_unique;
  ready = left_over-IsReady;
  apart = left_over-IsApart;
  new = codes "ft-1";
  flow = left_over_flow;
  there = left_over_file;
  unmarked = refl;
}

start-Finished_example :
    Finished nas net
      ((1, true) ∷ [])
      (client ∷ [])
      (begun cycle_env running)
      (start cycle_env net running).world
unfolding lookup nat_eq
start-Finished_example =
    start-Finished cycle_env net running nas client [] (codes "other" ∷ nas ∷ []) ((1, true) ∷ [])
      ((nas, client ∷ []) ∷ (codes "other", record client { nas_ip = codes "other" } ∷ []) ∷ [])
      (unfold read_flow_dir_names in refl) (unfold text_eq in (refl, (refl, tt)))
      (unfold text_eq in refl) running_channels running_sessions (refl, tt) (unfold text_eq in refl)
      (unfold text_eq in refl) (λ _. refl) running-HasNew
