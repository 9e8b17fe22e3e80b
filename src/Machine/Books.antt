-- ===== src/Machine/Books.antt =====
-- The saves against the database: the files that were read are those with a row in the log, and the
-- table of chunks holds the chunks of the saves.
use mathlib.Core.Path.{subst}
use aggregator_demo.Base.{
  not, sym, Bool-cases, inl, inr, ◌≡◌, ap, ◌∙◌, true, false, Option, List, ◌∷◌, ◌++◌, arith,
  text_eq, contains,
}
use aggregator_demo.Base.Text.{Text}
use aggregator_demo.Entity.{Chunk}
use aggregator_demo.Database.{batch_row, row_eq, Db, apply_all, apply, delete_rows}
use aggregator_demo.Aggregator.Save.{Env}
use aggregator_demo.Aggregator.Atomic.{saved}
use aggregator_demo.Aggregator.Chunks.{apply_all-chunk, chunks_of-saved}
use aggregator_demo.Machine.Rows.{
  IsLogged, apply_all-IsLogged, apply_all-inserted, saved-inserted, saved-IsNew,
  delete_rows-IsLogged,
}
use aggregator_demo.Machine.Interleaved.{Save, was_read, NoneTwice, AreRead, all_chunks}
use aggregator_demo.Machine.Reading.{IsReadFrom}
use aggregator_demo.Storage.{Dir}
use aggregator_demo.Storage.Ready.{tmp_entries}

pub record Books (db : Db) (saves : List Save) : Type 0 where
  pub kept : IsLogged db
  pub logged :
      (j f : Text) → was_read saves j f ≡ true → contains db.inserted (batch_row j f) ≡ true
  pub read : (j f : Text) → contains db.inserted (batch_row j f) ≡ true → was_read saves j f ≡ true
  pub none_twice : NoneTwice saves
  pub chunk : db.chunk ≡ all_chunks saves
  pub reads : AreRead saves

pub Books-delete :
    (db : Db) (saves : List Save) (nas_ip : Text)
    → Books db saves
    → Books (apply db (delete_rows nas_ip)) saves
Books-delete db saves nas_ip b = record {
  kept = delete_rows-IsLogged nas_ip db b.kept;
  logged = unfold apply in b.logged;
  read = unfold apply in b.read;
  none_twice = b.none_twice;
  chunk = unfold apply in b.chunk;
  reads = b.reads;
}

module _ (e : Env) (nas_ip : Text) (fresh names : List Text) (chunks : List Chunk) (db : Db)
    (saves : List Save) (tmp : Option Dir) where
  abbrev this : Save
  this = record { nas_ip = nas_ip; fresh = fresh; chunks = chunks; tmp = tmp_entries tmp }

  this_read :
      (j f : Text)
      → was_read (this ∷ saves) j f ≡ true
      → was_read saves j f ≡ false
      → (j ≡ nas_ip) × (contains fresh f ≡ true)
  this_read j f h k = elim (text_eq.dec j nas_ip) [
    | yes p ↦ (p, ground (arith, p))
    | no p ↦ absurd (ground (arith, p))
  ]

  logged-saved :
      Books db saves
      → ((f : Text) → contains fresh f ≡ true → contains names f ≡ true)
      → (j f : Text) → was_read (this ∷ saves) j f ≡ true
      → contains (apply_all db (saved e nas_ip chunks names)).inserted (batch_row j f) ≡ true
  logged-saved b sub j f h = elim (Bool-cases (was_read saves j f)) [
    | inl p ↦ apply_all-inserted (saved e nas_ip chunks names) db (batch_row j f) (b.logged j f p)
    | inr p ↦
        subst
          (λ i.
            contains (apply_all db (saved e nas_ip chunks names)).inserted (batch_row i f) ≡ true)
          (sym (this_read j f h p).0)
          (saved-inserted nas_ip chunks names db f b.kept (sub f (this_read j f h p).1))
  ]

  read-saved :
      Books db saves
      → ((f : Text)
          → contains names f ≡ true
          → contains fresh f ≡ not (contains db.flow_batch (batch_row nas_ip f)))
      → (j f : Text)
      → contains (apply_all db (saved e nas_ip chunks names)).inserted (batch_row j f) ≡ true
      → was_read (this ∷ saves) j f ≡ true
  read-saved b split j f h = elim (Bool-cases (contains db.inserted (batch_row j f))) [
    | inl p ↦ ground (arith, b.read j f p)
    | inr p ↦
        (let q = saved-IsNew nas_ip chunks names db j f h p in
          let r = split f q.1 in
          subst (λ i. was_read (this ∷ saves) i f ≡ true) (sym q.0)
            (ground
              (arith, r, subst (λ i. contains db.flow_batch (batch_row i f) ≡ false) q.0 q.2)))
  ]

  -- A save whose files have no row in the log yet.
  pub Books-saved :
      Books db saves
      → ((f : Text) → contains fresh f ≡ true → contains names f ≡ true)
      → ((f : Text)
          → contains names f ≡ true
          → contains fresh f ≡ not (contains db.flow_batch (batch_row nas_ip f)))
      → ((f : Text) → contains fresh f ≡ true → contains db.inserted (batch_row nas_ip f) ≡ false)
      → IsReadFrom (tmp_entries tmp) fresh chunks
      → Books (apply_all db (saved e nas_ip chunks names)) (this ∷ saves)
  Books-saved b sub split new read = record {
    kept = apply_all-IsLogged (saved e nas_ip chunks names) db b.kept;
    logged = logged-saved b sub;
    read = read-saved b split;
    none_twice = (λ f h. ground (arith, new f h, b.logged nas_ip f), b.none_twice);
    chunk =
        apply_all-chunk (saved e nas_ip chunks names) db
        ∙ ap (λ x. db.chunk ++ x) (chunks_of-saved nas_ip names chunks)
        ∙ ap (λ x. x ++ chunks) b.chunk;
    reads = (read, b.reads);
  }
