-- ===== src/Aggregator/Save.antt =====
-- The three uses of the database by `Aggregate`: the checkpoint is loaded, the chunks are saved with
-- the checkpoint in one transaction, and the checkpoint is removed after the files.
use aggregator_demo.Base.{ℕ, Bool, true, false, Option, none, some, List, [], if◌then◌else◌}
use aggregator_demo.Base.Word.{Int64}
use aggregator_demo.Base.Text.{Text}
use aggregator_demo.Base.Map.{Map}
use aggregator_demo.Entity.{Error, closed, Chunk, Result, ok, err}
use aggregator_demo.Transaction.{SqlSession, start, commit, new_sql_session}
use aggregator_demo.Database.{
  Db, Tx, apply_all, load_committed_file_names, save_chunk_list, save_file_names, remove_by_nas_ip,
}
use aggregator_demo.Storage.{NasDir, Faults, remove_old}

-- How a commit ends. An error does not say whether the server has applied the transaction.
pub data Commit : Type 0 where
  applied : Commit
  refused : Error → Commit
  applied_unanswered : Error → Commit

unfoldable pub commit_error : Commit → Option Error
commit_error applied = none
commit_error (refused e) = some e
commit_error (applied_unanswered e) = some e

unfoldable pub is_applied : Commit → Bool
is_applied applied = true
is_applied (refused e) = false
is_applied (applied_unanswered e) = true

-- What the file system, the database and the metrics answer in one run of `Aggregate`. A run that
-- dies at some point leaves what a run leaves that fails at the next call.
pub record Env : Type 0 where
  pub files : Faults
  pub begin_load : Option Error
  pub select_names : Option Error
  pub begin_save : Option Error
  pub prepare_chunks : Option Error
  pub exec_chunk : ℕ → Option Error
  pub prepare_names : Option Error
  pub exec_name : ℕ → Option Error
  pub commit_save : Commit
  pub begin_remove : Option Error
  pub delete_names : Option Error
  pub commit_remove : Commit
  -- `Counter.Add` of the third-party Prometheus client panics at this value
  pub counter_panics : Int64 → Bool

unfoldable pub begin_result : Option Error → Result Tx
begin_result none = ok []
begin_result (some e) = err e

-- `CreateSession`, `Start`, the deferred `Rollback`: what is not committed is dropped.
unfoldable pub opened : Option Error → SqlSession Tx × Option Error
unfolding begin_result start new_sql_session
opened begin = start (begin_result begin) (new_sql_session Tx)

-- The end of a transaction whose body gave these writes, or failed.
unfoldable pub committed : Commit → Db → SqlSession Tx → Tx × Option Error → Db × Option Error
unfolding commit is_applied commit_error apply_all
committed answer db ts (tx, some e) = (db, some e)
committed answer db ts (tx, none) = (
  if is_applied answer then apply_all db tx else db,
  (commit (λ t. commit_error answer) (record ts { current_tx = some tx })).1,
)

unfoldable pub in_session :
    Commit → Db → (Tx → Tx × Option Error) → SqlSession Tx → Option Tx → Db × Option Error
unfolding committed
in_session answer db body ts none = (db, some closed)
in_session answer db body ts (some tx) = committed answer db ts (body tx)

unfoldable pub in_transaction :
    Option Error → (Tx → Tx × Option Error) → Commit → Db → Db × Option Error
unfolding opened in_session
in_transaction begin body answer db =
    let s = opened begin in
    elim s.1 [ some e ↦ (db, some e) | none ↦ in_session answer db body s.0 s.0.current_tx ]

-- `loadCommittedFileNames`; its transaction is always rolled back.
unfoldable pub load_names : Env → Text → Db → Result (Map Text Bool)
unfolding opened load_committed_file_names
load_names e nas_ip db = elim (opened e.begin_load).1 [
  | some x ↦ err x
  | none ↦ load_committed_file_names e.select_names db nas_ip
]

-- The two saves, the second only if the first gave no error.
unfoldable pub then_names : Env → Text → List Text → Tx × Option Error → Tx × Option Error
unfolding save_file_names
then_names e nas_ip names (tx, some x) = (tx, some x)
then_names e nas_ip names (tx, none) = save_file_names e.prepare_names e.exec_name nas_ip names tx

unfoldable pub save_both : Env → Text → List Chunk → List Text → Tx → Tx × Option Error
unfolding save_chunk_list then_names
save_both e nas_ip chunks names tx =
    then_names e nas_ip names (save_chunk_list e.prepare_chunks e.exec_chunk chunks tx)

-- `saveChunkListWithCheckpoint`
unfoldable pub save_chunk_list_with_checkpoint :
    Env → Text → List Chunk → List Text → Db → Db × Option Error
unfolding in_transaction save_both
save_chunk_list_with_checkpoint e nas_ip chunks names =
    in_transaction e.begin_save (save_both e nas_ip chunks names) e.commit_save

-- The end of `removeOldFlow`, reached only if the files are gone.
unfoldable pub remove_checkpoint : Env → Text → Db → Db
unfolding in_transaction remove_by_nas_ip
remove_checkpoint e nas_ip db =
    (in_transaction e.begin_remove (remove_by_nas_ip e.delete_names nas_ip) e.commit_remove db).0

-- `removeOldFlow`: if the files cannot be removed, the checkpoint stays.
unfoldable pub after_files : Env → Text → Db → NasDir × Option Error → NasDir × Db
unfolding remove_checkpoint
after_files e nas_ip db (d, some x) = (d, db)
after_files e nas_ip db (d, none) = (d, remove_checkpoint e nas_ip db)

unfoldable pub remove_old_flow : Env → Text → NasDir → Db → NasDir × Db
unfolding remove_old after_files
remove_old_flow e nas_ip d db = after_files e nas_ip db (remove_old e.files d)
