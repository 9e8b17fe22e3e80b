-- ===== src/Tests/Data.antt =====
-- A network, channels, sessions and files for the tests.
use aggregator_demo.Base.{true, none, some, List, [], ◌∷◌, length, nat_eq, ◌==◌, if◌then◌else◌}
use aggregator_demo.Base.Text.{Text, codes, starts_with}
use aggregator_demo.Base.Word.{is_negative}
use aggregator_demo.Entity.{OnlineSession}
use aggregator_demo.Traffic.{Net, ChannelMap}
use aggregator_demo.Database.{Db}
use aggregator_demo.Storage.{NasDir, file, no_faults}
use aggregator_demo.Aggregator.Save.{Env, applied}
use aggregator_demo.Aggregator.Stages.{State}

-- Addresses are their own text, and those that begin with "10." are internal.
unfoldable pub net : Net
unfolding starts_with nat_eq
net = record {
  parse_ip = λ t. if length t == 0 then none else some t;
  ip_string = λ ip. ip;
  contains = λ ip. some (starts_with ip (codes "10."));
}

abbrev pub channels : ChannelMap
channels = (1, true) ∷ (2, true) ∷ []

abbrev pub nas : Text
nas = codes "nas"

abbrev pub client : OnlineSession
client = record { sess_id = 7; ip = codes "10.0.0.1"; nas_ip = nas }

abbrev pub other_client : OnlineSession
other_client = record { sess_id = 8; ip = codes "10.0.0.2"; nas_ip = nas }

abbrev pub line_up : Text
line_up = codes "300,8.8.8.8,10.0.0.1"

abbrev pub line_down : Text
line_down = codes "1000,10.0.0.1,8.8.8.8"

abbrev pub line_inside : Text
line_inside = codes "50,10.0.0.1,10.0.0.2"

abbrev pub lines : List Text
lines = codes "#:doctets,srcaddr,dstaddr" ∷ line_down ∷ line_up ∷ line_inside ∷ codes "bad" ∷ []

abbrev pub flow_file : Text
flow_file = codes "#:doctets,srcaddr,dstaddr\n1000,10.0.0.1,8.8.8.8\n300,8.8.8.8,10.0.0.1\n"

unfoldable pub env : Env
unfolding is_negative
env = record {
  files = no_faults;
  begin_load = none;
  select_names = none;
  begin_save = none;
  prepare_chunks = none;
  exec_chunk = λ _. none;
  prepare_names = none;
  exec_name = λ _. none;
  commit_save = applied;
  begin_remove = none;
  delete_names = none;
  commit_remove = applied;
  counter_panics = is_negative;
}

abbrev pub empty_db : Db
empty_db = record { channel = []; online_session = []; chunk = []; flow_batch = []; inserted = [] }

abbrev pub dir : NasDir
dir = record {
  entries = (codes "ft-1", file flow_file) ∷ (codes "tmp-2", file []) ∷ [];
  tmp = none;
}

abbrev pub start_state : State
start_state = record { dir = dir; db = empty_db; events = [] }
