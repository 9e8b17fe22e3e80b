-- ===== src/Machine/Applied.antt =====
-- Whether the database has applied the transaction of a save, and what it holds then.
use aggregator_demo.Base.{
  ◌≡◌, refl, ap, ◌⊎◌, inl, inr, Bool, false, Option, none, some, List, [], if◌then◌else◌,
}
use aggregator_demo.Base.Text.{Text}
use aggregator_demo.Entity.{Error, Chunk}
use aggregator_demo.Transaction.{SqlSession}
use aggregator_demo.Database.{Db, delete_rows, Tx, apply_all, apply, remove_by_nas_ip}
use aggregator_demo.Aggregator.Save.{
  Env, Commit, applied, refused, applied_unanswered, is_applied, committed, opened, begin_result,
  in_transaction, save_both, save_chunk_list_with_checkpoint, remove_checkpoint,
}
use aggregator_demo.Aggregator.Atomic.{saved, save_both-all}

-- A body without an error, and a commit that was applied.
unfoldable pub body_applied : Commit → Option Error → Bool
unfolding is_applied
body_applied answer none = is_applied answer
body_applied answer (some x) = false

unfoldable pub tx_applied : Option Error → Commit → Option Error → Bool
unfolding body_applied
tx_applied none answer o = body_applied answer o
tx_applied (some x) answer o = false

module _ (e : Env) (nas_ip : Text) where
  unfoldable pub save_applied : List Chunk → List Text → Bool
  unfolding tx_applied save_both
  save_applied chunks names =
      tx_applied e.begin_save e.commit_save (save_both e nas_ip chunks names []).1

  module _ (chunks : List Chunk) (names : List Text) where
    committed-db :
        (answer : Commit) (db : Db) (ts : SqlSession Tx) (r : Tx × Option Error)
        → (r.1 ≡ none → r.0 ≡ saved e nas_ip chunks names)
        → (committed answer db ts r).0
          ≡ (if body_applied answer r.1 then apply_all db (saved e nas_ip chunks names) else db)
    unfolding committed body_applied
    committed-db answer db ts (tx, some x) k = refl
    committed-db applied db ts (tx, none) k = ap (apply_all db) (k refl)
    committed-db (refused x) db ts (tx, none) k = refl
    committed-db (applied_unanswered x) db ts (tx, none) k = ap (apply_all db) (k refl)

    begun-db :
        (begin : Option Error) (db : Db)
        → (in_transaction begin (save_both e nas_ip chunks names) e.commit_save db).0 ≡ (
            if tx_applied begin e.commit_save (save_both e nas_ip chunks names []).1
            then apply_all db (saved e nas_ip chunks names)
            else db)
    unfolding in_transaction tx_applied begin_result
    begun-db (some x) db = refl
    begun-db none db =
        committed-db e.commit_save db (opened none).0 (save_both e nas_ip chunks names [])
          (save_both-all e nas_ip chunks names)

    pub save-db :
        (db : Db)
        → (save_chunk_list_with_checkpoint e nas_ip chunks names db).0
          ≡ (if save_applied chunks names then apply_all db (saved e nas_ip chunks names) else db)
    unfolding save_chunk_list_with_checkpoint save_applied
    save-db db = begun-db e.begin_save db

  removed-db :
      (answer : Commit) (db : Db) (ts : SqlSession Tx) (o : Option Error)
      → ((committed answer db ts (remove_by_nas_ip o nas_ip [])).0 ≡ db)
        ⊎ ((committed answer db ts (remove_by_nas_ip o nas_ip [])).0
            ≡ apply db (delete_rows nas_ip))
  unfolding committed remove_by_nas_ip apply_all
  removed-db answer db ts (some x) = inl refl
  removed-db applied db ts none = inr refl
  removed-db (refused x) db ts none = inl refl
  removed-db (applied_unanswered x) db ts none = inr refl

  begun-removed :
      (begin : Option Error) (db : Db)
      → let r = in_transaction begin (remove_by_nas_ip e.delete_names nas_ip) e.commit_remove db in
        (r.0 ≡ db) ⊎ (r.0 ≡ apply db (delete_rows nas_ip))
  unfolding in_transaction begin_result
  begun-removed (some x) db = inl refl
  begun-removed none db = removed-db e.commit_remove db (opened none).0 e.delete_names

  pub remove-db :
      (db : Db)
      → (remove_checkpoint e nas_ip db ≡ db)
        ⊎ (remove_checkpoint e nas_ip db ≡ apply db (delete_rows nas_ip))
  unfolding remove_checkpoint
  remove-db db = begun-removed e.begin_remove db
