-- ===== src/Aggregator/Healthy.antt =====
-- The uses of the database by a run in which no call fails.
use aggregator_demo.Base.{
  ℕ, suc, ◌≡◌, refl, ap, ◌∙◌, true, false, Option, none, some, List, [], ◌∷◌, ◌++◌, map, arith,
  ◌==◌, text_eq, if◌then◌else◌, select,
}
use aggregator_demo.Base.Text.{Text}
use aggregator_demo.Entity.{Error, git_keep_name, Chunk}
use aggregator_demo.Database.{
  BatchRow, Db, Tx, Write, insert_chunk, insert_row, batch_row, apply_all, apply, go_on, exec_each,
  prepared, save_chunk_list, save_file_names, remove_by_nas_ip,
}
use aggregator_demo.Storage.{file, no_faults, remove_old}
use aggregator_demo.Aggregator.Save.{
  Env, applied, committed, in_session, in_transaction, opened, then_names, save_both,
  save_chunk_list_with_checkpoint, remove_checkpoint, after_files, remove_old_flow,
}
use aggregator_demo.Aggregator.Stages.{State, clean}
use aggregator_demo.Aggregator.Atomic.{save_both-all}
use aggregator_demo.Aggregator.Chunks.{chunks_of, chunks_of-saved, apply_all-chunk}

-- No call fails, and no counter panics.
abbrev pub healthy : Env
healthy = record {
  files = no_faults;
  begin_load = none;
  select_names = none;
  begin_save = none;
  prepare_chunks = none;
  exec_chunk = λ _. none;
  prepare_names = none;
  exec_name = λ _. none;
  commit_save = applied;
  begin_remove = none;
  delete_names = none;
  commit_remove = applied;
  counter_panics = λ _. false;
}

-- The rows of the checkpoint of a directory.
abbrev pub rows_at : Text → Db → List BatchRow
rows_at nas_ip db = select (λ r. r.nas_ip == nas_ip) db.flow_batch

select-none :
    (nas_ip : Text) (rows : List BatchRow)
    → select
        (λ r. r.nas_ip == nas_ip)
        (select (λ r. if r.nas_ip == nas_ip then false else true) rows)
      ≡ []
select-none nas_ip [] = refl
select-none nas_ip (r ∷ rows) = ground (arith, select-none nas_ip rows)

exec_each-ok : (ws : List Write) (i : ℕ) (tx : Tx) → (exec_each (λ _. none) ws i tx).1 ≡ none
unfolding exec_each go_on
exec_each-ok [] i tx = refl
exec_each-ok (w ∷ ws) i tx = exec_each-ok ws (suc i) (tx ++ w ∷ [])

module _ (nas_ip : Text) where
  then_names-ok :
      (names : List Text) (r : Tx × Option Error)
      → r.1 ≡ none
      → (then_names healthy nas_ip names r).1 ≡ none
  unfolding then_names save_file_names prepared
  then_names-ok [] (tx, none) h = refl
  then_names-ok (f ∷ names) (tx, none) h =
      exec_each-ok (map (λ name. insert_row (batch_row nas_ip name)) (f ∷ names)) 0 tx
  then_names-ok names (tx, some x) h = absurd (cc h)

  save_both-ok :
      (chunks : List Chunk) (names : List Text)
      → (save_both healthy nas_ip chunks names []).1 ≡ none
  unfolding save_both save_chunk_list prepared
  save_both-ok chunks names = then_names-ok names _ (exec_each-ok (map insert_chunk chunks) 0 [])

  committed-ok :
      (db : Db) (r : Tx × Option Error)
      → r.1 ≡ none
      → committed applied db (opened none).0 r ≡ (apply_all db r.0, none)
  unfolding committed opened
  committed-ok db (tx, none) h = refl
  committed-ok db (tx, some x) h = absurd (cc h)

  -- The save succeeds, and adds the chunks.
  pub save-ok :
      (chunks : List Chunk) (names : List Text) (db : Db)
      → let r = save_chunk_list_with_checkpoint healthy nas_ip chunks names db in
        (r.1 ≡ none) × (r.0.chunk ≡ db.chunk ++ chunks)
  unfolding save_chunk_list_with_checkpoint in_transaction in_session opened
  save-ok chunks names db =
      let r = save_both healthy nas_ip chunks names [] in
      let h = save_both-ok chunks names in
      rw (committed-ok db r h) (
        refl,
        apply_all-chunk r.0 db
            ∙ ap (λ tx. db.chunk ++ chunks_of tx) (save_both-all healthy nas_ip chunks names h)
            ∙ ap (λ x. db.chunk ++ x) (chunks_of-saved nas_ip names chunks),
      )

  pub clean-dir :
      (s : State)
      → (clean healthy nas_ip s).dir
        ≡ record { entries = s.dir.entries; tmp = some ((git_keep_name, file []) ∷ []) }
  unfolding clean remove_old_flow remove_old after_files
  clean-dir s = refl

  pub clean-rows : (s : State) → rows_at nas_ip (clean healthy nas_ip s).db ≡ []
  unfolding clean remove_old_flow remove_old after_files remove_checkpoint in_transaction in_session
      opened remove_by_nas_ip committed apply_all apply
  clean-rows s = select-none nas_ip s.db.flow_batch
