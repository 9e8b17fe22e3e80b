-- ===== src/Aggregator/Atomic.antt =====
-- Saving chunks and checkpoint as one transaction.
use mathlib.Core.List.{append-nil, append_assoc}
use aggregator_demo.Base.{
  ℕ, suc, ◌≡◌, refl, sym, ap, ◌∙◌, ◌⊎◌, inl, inr, Option, none, some, List, [], ◌∷◌, ◌++◌, map,
}
use aggregator_demo.Base.Text.{Text}
use aggregator_demo.Entity.{Error, Chunk}
use aggregator_demo.Transaction.{commit}
use aggregator_demo.Database.{
  batch_row, Db, Write, insert_chunk, insert_row, Tx, apply_all, go_on, exec_each, prepared,
  save_chunk_list, save_file_names,
}
use aggregator_demo.Aggregator.Save.{
  Env, Commit, applied, refused, applied_unanswered, committed, opened, begin_result,
  in_transaction, save_both, then_names, save_chunk_list_with_checkpoint,
}

go_on-all :
    (more : Tx → Tx × Option Error) (tx : Tx) (w : Write) (ws : List Write) (o : Option Error)
    → ((t : Tx) → (more t).1 ≡ none → (more t).0 ≡ t ++ ws)
    → (go_on more tx w o).1 ≡ none
    → (go_on more tx w o).0 ≡ tx ++ w ∷ ws
unfolding go_on
go_on-all more tx w ws (some e) k h = absurd (cc h)
go_on-all more tx w ws none k h = k (tx ++ w ∷ []) h ∙ append_assoc tx (w ∷ []) ws

exec_each-all :
    (exec : ℕ → Option Error) (ws : List Write) (i : ℕ) (tx : Tx)
    → (exec_each exec ws i tx).1 ≡ none
    → (exec_each exec ws i tx).0 ≡ tx ++ ws
unfolding exec_each
exec_each-all exec [] i tx h = sym (append-nil tx)
exec_each-all exec (w ∷ ws) i tx h =
    go_on-all (exec_each exec ws (suc i)) tx w ws (exec i) (exec_each-all exec ws (suc i)) h

prepared-all :
    (fault : Option Error) (exec : ℕ → Option Error) (tx : Tx) (ws : List Write)
    → (prepared fault exec tx ws).1 ≡ none
    → (prepared fault exec tx ws).0 ≡ tx ++ ws
unfolding prepared
prepared-all (some e) exec tx ws h = absurd (cc h)
prepared-all none exec tx ws h = exec_each-all exec ws 0 tx h

-- The rows of the checkpoint for these names.
abbrev pub rows_of : Text → List Text → Tx
rows_of nas_ip = map (λ name. insert_row (batch_row nas_ip name))

save_file_names-all :
    (fault : Option Error) (exec : ℕ → Option Error) (nas_ip : Text) (names : List Text) (tx : Tx)
    → (save_file_names fault exec nas_ip names tx).1 ≡ none
    → (save_file_names fault exec nas_ip names tx).0 ≡ tx ++ rows_of nas_ip names
unfolding save_file_names
save_file_names-all fault exec nas_ip [] tx h = sym (append-nil tx)
save_file_names-all fault exec nas_ip (f ∷ names) tx h =
    prepared-all fault exec tx (rows_of nas_ip (f ∷ names)) h

module _ (e : Env) (nas_ip : Text) (chunks : List Chunk) (names : List Text) where
  -- All writes of one save, in their order.
  abbrev pub saved : Tx
  saved = map insert_chunk chunks ++ rows_of nas_ip names

  then_names-all :
      (r : Tx × Option Error)
      → (r.1 ≡ none → r.0 ≡ map insert_chunk chunks)
      → (then_names e nas_ip names r).1 ≡ none
      → (then_names e nas_ip names r).0 ≡ saved
  unfolding then_names
  then_names-all (tx, some x) k h = absurd (cc h)
  then_names-all (tx, none) k h =
      save_file_names-all e.prepare_names e.exec_name nas_ip names tx h
      ∙ ap (λ t. t ++ rows_of nas_ip names) (k refl)

  abbrev AllOrNothing : Db → Db × Option Error → Type 0
  AllOrNothing db r =
      ((r.0 ≡ db) ⊎ (r.0 ≡ apply_all db saved)) × (r.1 ≡ none → r.0 ≡ apply_all db saved)

  committed-all :
      (answer : Commit) (db : Db) (r : Tx × Option Error)
      → (r.1 ≡ none → r.0 ≡ saved)
      → AllOrNothing db (committed answer db (opened none).0 r)
  unfolding committed opened commit
  committed-all answer db (tx, some x) k = (inl refl, λ h. absurd (cc h))
  committed-all applied db (tx, none) k =
      (inr (ap (apply_all db) (k refl)), λ h. ap (apply_all db) (k refl))
  committed-all (refused x) db (tx, none) k = (inl refl, λ h. absurd (cc h))
  committed-all (applied_unanswered x) db (tx, none) k =
      (inr (ap (apply_all db) (k refl)), λ h. absurd (cc h))

  pub save_both-all :
      (save_both e nas_ip chunks names []).1 ≡ none → (save_both e nas_ip chunks names []).0 ≡ saved
  unfolding save_both save_chunk_list
  save_both-all =
      then_names-all _ (prepared-all e.prepare_chunks e.exec_chunk [] (map insert_chunk chunks))

  transaction-all :
      (begin : Option Error) (db : Db)
      → AllOrNothing db (in_transaction begin (save_both e nas_ip chunks names) e.commit_save db)
  unfolding in_transaction begin_result
  transaction-all (some x) db = (inl refl, λ h. absurd (cc h))
  transaction-all none db =
      committed-all e.commit_save db (save_both e nas_ip chunks names []) save_both-all

  -- Whatever the driver answers, saving leaves the database as it was or applies the inserts of
  -- all chunks and of all file names, in their order; if it returns no error, it has applied
  -- them.
  pub save-AllOrNothing :
      (db : Db) → AllOrNothing db (save_chunk_list_with_checkpoint e nas_ip chunks names db)
  unfolding save_chunk_list_with_checkpoint
  save-AllOrNothing db = transaction-all e.begin_save db
