-- ===== src/Aggregator/Once.antt =====
-- The invariant of the checkpoint over the three uses of the database, for proofs on whole runs.
use mathlib.Core.Path.{subst}
use aggregator_demo.Base.{
  sym, ℕ, suc, ◌≡◌, ◌≢◌, refl, ◌∙◌, true, false, Option, none, some, List, [], ◌∷◌, ◌++◌, map,
  arith, text_eq, All, All-append, contains,
}
use aggregator_demo.Base.Text.{Text}
use aggregator_demo.Entity.{Error, Chunk}
use aggregator_demo.Database.{
  BatchRow, batch_row, row_eq, Db, Write, insert_chunk, insert_row, delete_rows, apply, Tx,
  apply_all, go_on, exec_each, prepared, save_chunk_list, save_file_names, remove_by_nas_ip,
}
use aggregator_demo.Transaction.{SqlSession}
use aggregator_demo.Storage.{NasDir}
use aggregator_demo.Storage.Lookup.{tmp_has, is_flow_name}
use aggregator_demo.Aggregator.Save.{
  Env, Commit, applied, refused, applied_unanswered, committed, opened, begin_result,
  in_transaction, save_both, then_names, save_chunk_list_with_checkpoint, remove_checkpoint,
}
use aggregator_demo.Aggregator.Guard.{Once, IsGuarded, IsGuarded-insert_row, IsGuarded-delete_rows}

-- The directory of the worker, those of all others, and the log.
pub record Guarded (others : Text → NasDir) (nas_ip : Text) (d : NasDir) (db : Db) : Type 0 where
  pub own : IsGuarded nas_ip d db
  pub rest : (j : Text) → j ≢ nas_ip → IsGuarded j (others j) db
  pub once : Once db.inserted

-- The writes that a worker may make: chunks, rows of flow files that are in its `tmp`, and the removal
-- of its own rows while `tmp` holds no flow file.
abbrev Allowed : Text → NasDir → Write → Type 0
Allowed nas_ip d (insert_chunk c) = Unit
Allowed nas_ip d (insert_row r) =
    (r.nas_ip ≡ nas_ip) × (tmp_has r.file_name d ≡ true) × (is_flow_name r.file_name ≡ true)
Allowed nas_ip d (delete_rows n) =
    (n ≡ nas_ip) × ((f : Text) → is_flow_name f ≡ true → tmp_has f d ≡ false)

module _ (others : Text → NasDir) (nas_ip : Text) (d : NasDir) where
  Once-insert_row :
      (db : Db) (r : BatchRow)
      → (contains db.flow_batch r ≡ false → contains db.inserted r ≡ false)
      → Once db.inserted
      → Once (apply db (insert_row r)).inserted
  unfolding apply
  Once-insert_row db r new h = ground arith

  new_row :
      (db : Db) (r : BatchRow)
      → r.nas_ip ≡ nas_ip
      → tmp_has r.file_name d ≡ true
      → is_flow_name r.file_name ≡ true
      → IsGuarded nas_ip d db
      → contains db.flow_batch r ≡ false
      → contains db.inserted r ≡ false
  new_row db r e h k g =
      let same : batch_row nas_ip r.file_name ≡ r =
        λ i. record { nas_ip = sym e i; file_name = r.file_name } in
      subst (λ x. contains db.flow_batch x ≡ false → contains db.inserted x ≡ false) same
        (λ p. ground (arith, g.marked r.file_name k h))

  Guarded-apply :
      (db : Db) (w : Write)
      → Allowed nas_ip d w
      → Guarded others nas_ip d db
      → Guarded others nas_ip d (apply db w)
  Guarded-apply db (insert_chunk c) h g =
      unfold apply in
      record {
        own = record { waiting = g.own.waiting; marked = g.own.marked; apart = g.own.apart };
        rest = λ j k.
            let o = g.rest j k in
            record { waiting = o.waiting; marked = o.marked; apart = o.apart };
        once = g.once;
      }
  Guarded-apply db (insert_row r) (e, h, k) g = record {
    own = IsGuarded-insert_row nas_ip d db r (λ p. ground (arith, g.own.apart r.file_name k)) g.own;
    rest = λ j q. IsGuarded-insert_row j (others j) db r (λ p. absurd (q (p ∙ e))) (g.rest j q);
    once = Once-insert_row db r (new_row db r e h k g.own) g.once;
  }
  Guarded-apply db (delete_rows n) (e, h) g = record {
    own = IsGuarded-delete_rows nas_ip d db n (λ p. h) g.own;
    rest = λ j q. IsGuarded-delete_rows j (others j) db n (λ p. absurd (q (p ∙ e))) (g.rest j q);
    once = unfold apply in g.once;
  }

  Guarded-apply_all :
      (tx : Tx) (db : Db)
      → All (Allowed nas_ip d) tx
      → Guarded others nas_ip d db
      → Guarded others nas_ip d (apply_all db tx)
  unfolding apply_all
  Guarded-apply_all [] db h g = g
  Guarded-apply_all (w ∷ tx) db h g =
      Guarded-apply_all tx (apply db w) h.1 (Guarded-apply db w h.0 g)

  Guarded-committed :
      (answer : Commit) (db : Db) (ts : SqlSession Tx) (r : Tx × Option Error)
      → All (Allowed nas_ip d) r.0
      → Guarded others nas_ip d db
      → Guarded others nas_ip d (committed answer db ts r).0
  unfolding committed
  Guarded-committed answer db ts (tx, some e) h g = g
  Guarded-committed applied db ts (tx, none) h g = Guarded-apply_all tx db h g
  Guarded-committed (refused e) db ts (tx, none) h g = g
  Guarded-committed (applied_unanswered e) db ts (tx, none) h g = Guarded-apply_all tx db h g

  Guarded-in_transaction :
      (begin : Option Error) (body : Tx → Tx × Option Error) (answer : Commit) (db : Db)
      → All (Allowed nas_ip d) (body []).0
      → Guarded others nas_ip d db
      → Guarded others nas_ip d (in_transaction begin body answer db).0
  unfolding in_transaction begin_result
  Guarded-in_transaction (some e) body answer db h g = g
  Guarded-in_transaction none body answer db h g =
      Guarded-committed answer db (opened none).0 (body []) h g

  abbrev AllAllowed : Tx → Type 0
  AllAllowed = All (Allowed nas_ip d)

  All-go_on :
      (more : Tx → Tx × Option Error) (tx : Tx) (w : Write) (o : Option Error)
      → ((t : Tx) → AllAllowed t → AllAllowed (more t).0)
      → AllAllowed tx
      → Allowed nas_ip d w
      → AllAllowed (go_on more tx w o).0
  unfolding go_on
  All-go_on more tx w (some e) k h a = h
  All-go_on more tx w none k h a =
      k (tx ++ w ∷ []) (All-append (Allowed nas_ip d) tx (w ∷ []) h (a, tt))

  All-exec_each :
      (exec : ℕ → Option Error) (ws : List Write) (i : ℕ) (tx : Tx)
      → AllAllowed tx
      → AllAllowed ws
      → AllAllowed (exec_each exec ws i tx).0
  unfolding exec_each
  All-exec_each exec [] i tx h k = h
  All-exec_each exec (w ∷ ws) i tx h k =
      All-go_on (exec_each exec ws (suc i)) tx w (exec i)
        (λ t a. All-exec_each exec ws (suc i) t a k.1) h k.0

  All-prepared :
      (fault : Option Error) (exec : ℕ → Option Error) (ws : List Write) (tx : Tx)
      → AllAllowed tx
      → AllAllowed ws
      → AllAllowed (prepared fault exec tx ws).0
  unfolding prepared
  All-prepared (some e) exec ws tx h k = h
  All-prepared none exec ws tx h k = All-exec_each exec ws 0 tx h k

  All-chunks : (chunks : List Chunk) → AllAllowed (map insert_chunk chunks)
  All-chunks [] = tt
  All-chunks (c ∷ chunks) = (tt, All-chunks chunks)

  abbrev InTmp : Text → Type 0
  InTmp f = (tmp_has f d ≡ true) × (is_flow_name f ≡ true)

  All-rows :
      (names : List Text)
      → All InTmp names
      → AllAllowed (map (λ name. insert_row (batch_row nas_ip name)) names)
  All-rows [] h = tt
  All-rows (f ∷ names) h = ((refl, (h.0).0, (h.0).1), All-rows names h.1)

  All-save_file_names :
      (fault : Option Error) (exec : ℕ → Option Error) (names : List Text) (tx : Tx)
      → AllAllowed tx
      → All InTmp names
      → AllAllowed (save_file_names fault exec nas_ip names tx).0
  unfolding save_file_names
  All-save_file_names fault exec [] tx h k = h
  All-save_file_names fault exec (f ∷ names) tx h k =
      All-prepared fault exec _ tx h (All-rows (f ∷ names) k)

  All-then_names :
      (e : Env) (names : List Text) (r : Tx × Option Error)
      → AllAllowed r.0
      → All InTmp names
      → AllAllowed (then_names e nas_ip names r).0
  unfolding then_names
  All-then_names e names (tx, some x) h k = h
  All-then_names e names (tx, none) h k =
      All-save_file_names e.prepare_names e.exec_name names tx h k

  -- Saving the chunks with the checkpoint keeps the invariant of the checkpoint if the names are
  -- those of flow files in `tmp`, however the transaction ends.
  pub Guarded-save :
      (e : Env) (chunks : List Chunk) (names : List Text) (db : Db)
      → All InTmp names
      → Guarded others nas_ip d db
      → Guarded others nas_ip d (save_chunk_list_with_checkpoint e nas_ip chunks names db).0
  unfolding save_chunk_list_with_checkpoint save_both save_chunk_list
  Guarded-save e chunks names db k g =
      Guarded-in_transaction e.begin_save (save_both e nas_ip chunks names) e.commit_save db
        (All-then_names e names _
          (All-prepared e.prepare_chunks e.exec_chunk (map insert_chunk chunks) [] tt
            (All-chunks chunks))
          k)
        g

  All-remove :
      (fault : Option Error)
      → ((f : Text) → is_flow_name f ≡ true → tmp_has f d ≡ false)
      → AllAllowed (remove_by_nas_ip fault nas_ip []).0
  unfolding remove_by_nas_ip
  All-remove (some x) h = tt
  All-remove none h = ((refl, h), tt)

  pub Guarded-remove_checkpoint :
      (e : Env) (db : Db)
      → ((f : Text) → is_flow_name f ≡ true → tmp_has f d ≡ false)
      → Guarded others nas_ip d db
      → Guarded others nas_ip d (remove_checkpoint e nas_ip db)
  unfolding remove_checkpoint
  Guarded-remove_checkpoint e db h g =
      Guarded-in_transaction e.begin_remove (remove_by_nas_ip e.delete_names nas_ip) e.commit_remove
        db (All-remove e.delete_names h) g
