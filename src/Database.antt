-- ===== src/Database.antt =====
-- src/internal/repository/postgresql over the tables that the code reads and writes. A transaction
-- is the list of its writes, applied when it is committed: the code reads nothing that its own
-- transaction has written. What the driver answers at each call is an argument.
use aggregator_demo.Base.{
  ℕ, suc, ap, Bool, true, false, Option, none, some, List, [], ◌∷◌, ◌++◌, map, ◌==◌, text_eq, Eq,
  if◌then◌else◌, contains, select,
}
use mathlib.Core.List.{foldl}
use mathlib.Core.Logic.{dite}
use aggregator_demo.Base.Text.{Text}
use aggregator_demo.Base.Map.{Map, insert}
use aggregator_demo.Entity.{Error, no_data, Channel, OnlineSession, Chunk, Result, ok, err}
use aggregator_demo.Gensql.{select_rows}

-- A row of `flow_batch`, whose primary key is both columns.
pub record BatchRow : Type 0 where
  pub nas_ip : Text
  pub file_name : Text

row_dec : Discrete BatchRow
row_dec a b =
    dite (text_eq.dec a.nas_ip b.nas_ip)
      (λ p.
        dite (text_eq.dec a.file_name b.file_name)
          (λ q. yes (λ i. record { nas_ip = p i; file_name = q i }))
          (λ n. no (λ e. n (ap (λ (r : BatchRow). r.file_name) e))))
      (λ n. no (λ e. n (ap (λ (r : BatchRow). r.nas_ip) e)))

instance unfoldable pub row_eq : Eq BatchRow
unfolding row_dec
row_eq = record { dec = row_dec }

-- `inserted` lists every row that was ever inserted in `flow_batch`, the last one first. The program
-- does not keep it: it is there for statements about whole runs.
pub record Db : Type 0 where
  pub channel : List Channel
  pub online_session : List OnlineSession
  pub chunk : List Chunk
  pub flow_batch : List BatchRow
  pub inserted : List BatchRow

pub data Write : Type 0 where
  insert_chunk : Chunk → Write
  insert_row : BatchRow → Write
  delete_rows : Text → Write

-- `insert … on conflict (nas_ip, file_name) do nothing` and `delete … where nas_ip = $1`
unfoldable pub apply : Db → Write → Db
apply db (insert_chunk c) = record db { chunk = db.chunk ++ c ∷ [] }
apply db (insert_row r) =
    if contains db.flow_batch r
    then db
    else record db { flow_batch = db.flow_batch ++ r ∷ []; inserted = r ∷ db.inserted }
apply db (delete_rows nas_ip) = record db {
  flow_batch = select (λ r. if r.nas_ip == nas_ip then false else true) db.flow_batch;
}

abbrev pub Tx : Type 0
Tx = List Write

unfoldable pub apply_all : Db → Tx → Db
unfolding apply
apply_all = foldl apply

-- A query gives the rows, unless the driver fails.
unfoldable pub answer {ℓ} : {T : Type ℓ} → Option Error → List T → Result (List T)
answer none rows = ok rows
answer (some e) rows = err e

-- `LoadChannelList`
unfoldable pub load_channel_list : Option Error → Db → Result (List Channel)
unfolding answer select_rows
load_channel_list fault db = select_rows (answer fault db.channel)

-- `LoadOnlineSessionList`
unfoldable pub load_online_session_list : Option Error → Db → Result (List OnlineSession)
unfolding answer select_rows
load_online_session_list fault db = select_rows (answer fault db.online_session)

-- The loop that fills `fileNameSet`.
unfoldable pub name_set : Map Text Bool → List BatchRow → Map Text Bool
unfolding insert
name_set set [] = set
name_set set (r ∷ rows) = name_set (insert r.file_name true set) rows

unfoldable pub committed_names : Result (List BatchRow) → Result (Map Text Bool)
unfolding name_set
committed_names (ok rows) = ok (name_set [] rows)
committed_names (err no_data) = ok []
committed_names (err e) = err e

-- `LoadCommittedFileNames`
unfoldable pub load_committed_file_names : Option Error → Db → Text → Result (Map Text Bool)
unfolding committed_names answer select_rows
load_committed_file_names fault db nas_ip =
    committed_names (select_rows (answer fault (select (λ r. r.nas_ip == nas_ip) db.flow_batch)))

-- One execution of a prepared statement for each row, up to the first that fails. `exec` says
-- what the driver answers at each of them.
unfoldable pub go_on : (Tx → Tx × Option Error) → Tx → Write → Option Error → Tx × Option Error
go_on more tx w (some e) = (tx, some e)
go_on more tx w none = more (tx ++ w ∷ [])

unfoldable pub exec_each : (ℕ → Option Error) → List Write → ℕ → Tx → Tx × Option Error
unfolding go_on
exec_each exec [] i tx = (tx, none)
exec_each exec (w ∷ ws) i tx = go_on (exec_each exec ws (suc i)) tx w (exec i)

-- Preparing the statement, then the loop.
unfoldable pub prepared : Option Error → (ℕ → Option Error) → Tx → List Write → Tx × Option Error
unfolding exec_each
prepared (some e) exec tx ws = (tx, some e)
prepared none exec tx ws = exec_each exec ws 0 tx

-- `SaveChunkList`
unfoldable pub save_chunk_list :
    Option Error → (ℕ → Option Error) → List Chunk → Tx → Tx × Option Error
unfolding prepared
save_chunk_list prepare exec chunks tx = prepared prepare exec tx (map insert_chunk chunks)

abbrev pub batch_row : Text → Text → BatchRow
batch_row nas_ip file_name = record { nas_ip = nas_ip; file_name = file_name }

-- `SaveFileNames`
unfoldable pub save_file_names :
    Option Error → (ℕ → Option Error) → Text → List Text → Tx → Tx × Option Error
unfolding prepared
save_file_names prepare exec nas_ip [] tx = (tx, none)
save_file_names prepare exec nas_ip (f ∷ names) tx =
    prepared prepare exec tx (map (λ name. insert_row (batch_row nas_ip name)) (f ∷ names))

-- `RemoveByNasIP`
unfoldable pub remove_by_nas_ip : Option Error → Text → Tx → Tx × Option Error
remove_by_nas_ip none nas_ip tx = (tx ++ delete_rows nas_ip ∷ [], none)
remove_by_nas_ip (some e) nas_ip tx = (tx, some e)
