-- ===== src/Aggregator/Chunks.antt =====
-- What the writes of a transaction add to the table of chunks.
use mathlib.Core.List.{append-nil, append_assoc}
use aggregator_demo.Base.{
  ◌≡◌, refl, sym, ap, ◌∙◌, ◌⊎◌, inl, inr, Option, none, some, List, [], ◌∷◌, ◌++◌, map, arith,
  text_eq,
}
use aggregator_demo.Base.Text.{Text}
use aggregator_demo.Entity.{Error, Chunk}
use aggregator_demo.Transaction.{SqlSession}
use aggregator_demo.Database.{
  Db, BatchRow, row_eq, insert_chunk, insert_row, delete_rows, apply, Tx, apply_all,
  remove_by_nas_ip,
}
use aggregator_demo.Storage.{NasDir, remove_old}
use aggregator_demo.Aggregator.Save.{
  Env, Commit, applied, refused, applied_unanswered, committed, opened, begin_result,
  in_transaction, save_chunk_list_with_checkpoint, remove_checkpoint, after_files, remove_old_flow,
}
use aggregator_demo.Aggregator.Stages.{State, clean}
use aggregator_demo.Aggregator.Atomic.{rows_of, saved, save-AllOrNothing}

-- The chunks among the writes.
abbrev pub chunks_of : Tx → List Chunk
chunks_of [] = []
chunks_of (insert_chunk c ∷ tx) = c ∷ chunks_of tx
chunks_of (insert_row r ∷ tx) = chunks_of tx
chunks_of (delete_rows n ∷ tx) = chunks_of tx

chunk-insert_row : (db : Db) (r : BatchRow) → (apply db (insert_row r)).chunk ≡ db.chunk
unfolding apply
chunk-insert_row db r = ground arith

pub apply_all-chunk : (tx : Tx) (db : Db) → (apply_all db tx).chunk ≡ db.chunk ++ chunks_of tx
unfolding apply_all
apply_all-chunk [] db = sym (append-nil db.chunk)
apply_all-chunk (insert_chunk c ∷ tx) db =
    apply_all-chunk tx (apply db (insert_chunk c))
    ∙ (unfold apply in append_assoc db.chunk (c ∷ []) (chunks_of tx))
apply_all-chunk (insert_row r ∷ tx) db =
    apply_all-chunk tx (apply db (insert_row r))
    ∙ ap (λ x. x ++ chunks_of tx) (chunk-insert_row db r)
apply_all-chunk (delete_rows n ∷ tx) db =
    apply_all-chunk tx (apply db (delete_rows n)) ∙ (unfold apply in refl)

chunks_of-rows_of : (nas_ip : Text) (names : List Text) → chunks_of (rows_of nas_ip names) ≡ []
chunks_of-rows_of nas_ip [] = refl
chunks_of-rows_of nas_ip (f ∷ names) = chunks_of-rows_of nas_ip names

pub chunks_of-saved :
    (nas_ip : Text) (names : List Text) (chunks : List Chunk)
    → chunks_of (map insert_chunk chunks ++ rows_of nas_ip names) ≡ chunks
chunks_of-saved nas_ip names [] = chunks_of-rows_of nas_ip names
chunks_of-saved nas_ip names (c ∷ chunks) = ap (λ x. c ∷ x) (chunks_of-saved nas_ip names chunks)

-- The table is as it was, or has these chunks more, behind the others.
abbrev pub Adds : List Chunk → Db → Db → Type 0
Adds chunks db db' = (db'.chunk ≡ db.chunk) ⊎ (db'.chunk ≡ db.chunk ++ chunks)

module _ (e : Env) (nas_ip : Text) where
  committed-chunk :
      (answer : Commit) (db : Db) (ts : SqlSession Tx) (r : Tx × Option Error)
      → chunks_of r.0 ≡ []
      → (committed answer db ts r).0.chunk ≡ db.chunk
  unfolding committed
  committed-chunk answer db ts (tx, some x) h = refl
  committed-chunk applied db ts (tx, none) h =
      apply_all-chunk tx db ∙ ap (λ x. db.chunk ++ x) h ∙ append-nil db.chunk
  committed-chunk (refused x) db ts (tx, none) h = refl
  committed-chunk (applied_unanswered x) db ts (tx, none) h =
      apply_all-chunk tx db ∙ ap (λ x. db.chunk ++ x) h ∙ append-nil db.chunk

  remove-chunks : (o : Option Error) → chunks_of (remove_by_nas_ip o nas_ip []).0 ≡ []
  unfolding remove_by_nas_ip
  remove-chunks none = refl
  remove-chunks (some x) = refl

  begun-chunk :
      (begin : Option Error) (db : Db)
      → (in_transaction begin (remove_by_nas_ip e.delete_names nas_ip) e.commit_remove db).0.chunk
        ≡ db.chunk
  unfolding in_transaction begin_result
  begun-chunk (some x) db = refl
  begun-chunk none db =
      committed-chunk e.commit_remove db (opened none).0 (remove_by_nas_ip e.delete_names nas_ip [])
        (remove-chunks e.delete_names)

  after_files-chunk :
      (db : Db) (r : NasDir × Option Error) → (after_files e nas_ip db r).1.chunk ≡ db.chunk
  unfolding after_files remove_checkpoint
  after_files-chunk db (d, some x) = refl
  after_files-chunk db (d, none) = begun-chunk e.begin_remove db

  pub clean-chunk : (s : State) → (clean e nas_ip s).db.chunk ≡ s.db.chunk
  unfolding clean remove_old_flow
  clean-chunk s = after_files-chunk s.db (remove_old e.files s.dir)

  pub Adds-same :
      (chunks : List Chunk) (d d' d'' : Db)
      → d''.chunk ≡ d'.chunk
      → Adds chunks d d'
      → Adds chunks d d''
  Adds-same chunks d d' d'' q (inl p) = inl (q ∙ p)
  Adds-same chunks d d' d'' q (inr p) = inr (q ∙ p)

  pub save-Adds :
      (chunks : List Chunk) (names : List Text) (db : Db)
      → Adds chunks db (save_chunk_list_with_checkpoint e nas_ip chunks names db).0
  save-Adds chunks names db = elim (save-AllOrNothing e nas_ip chunks names db).0 [
    | inl p ↦ inl (ap (λ d. d.chunk) p)
    | inr p ↦ inr (
        ap (λ d. d.chunk) p
        ∙ apply_all-chunk (saved e nas_ip chunks names) db
        ∙ ap (λ x. db.chunk ++ x) (chunks_of-saved nas_ip names chunks))
  ]
