-- ===== src/Machine/Rows.antt =====
-- What the writes of one worker do to the rows of the checkpoint, its own and those of others.
use aggregator_demo.Base.{
  Bool-cases, inl, inr, ◌≡◌, ◌≢◌, refl, ◌∙◌, Bool, true, false, List, [], ◌∷◌, ◌++◌, map, arith,
  ◌==◌, text_eq, if◌then◌else◌, contains, contains-append, select,
}
use aggregator_demo.Base.Text.{Text}
use aggregator_demo.Entity.{Chunk}
use aggregator_demo.Database.{
  BatchRow, batch_row, row_eq, Db, Write, insert_chunk, insert_row, delete_rows, apply, Tx,
  apply_all,
}
use aggregator_demo.Aggregator.Atomic.{rows_of}

-- Every row of the checkpoint was inserted.
abbrev pub IsLogged : Db → Type 0
IsLogged db = (r : BatchRow) → contains db.flow_batch r ≡ true → contains db.inserted r ≡ true

contains-select-sub :
    (p : BatchRow → Bool) (r : BatchRow) (rows : List BatchRow)
    → contains (select p rows) r ≡ true
    → contains rows r ≡ true
contains-select-sub p r [] h = h
contains-select-sub p r (x ∷ rows) h = ground (arith, contains-select-sub p r rows)

contains-select-other :
    (nas_ip : Text) (r : BatchRow) (rows : List BatchRow)
    → r.nas_ip ≢ nas_ip
    → contains (select (λ x. if x.nas_ip == nas_ip then false else true) rows) r ≡ contains rows r
contains-select-other nas_ip r [] h = refl
contains-select-other nas_ip r (x ∷ rows) h = ground (arith, contains-select-other nas_ip r rows h)

apply-IsLogged : (db : Db) (w : Write) → IsLogged db → IsLogged (apply db w)
unfolding apply
apply-IsLogged db (insert_chunk c) k r h = k r h
apply-IsLogged db (insert_row x) k r h =
    ground (arith, k r, contains-append db.flow_batch (x ∷ []) r)
apply-IsLogged db (delete_rows n) k r h = k r (contains-select-sub _ r db.flow_batch h)

apply-inserted :
    (db : Db) (w : Write) (r : BatchRow)
    → contains db.inserted r ≡ true
    → contains (apply db w).inserted r ≡ true
unfolding apply
apply-inserted db (insert_chunk c) r h = h
apply-inserted db (insert_row x) r h = ground arith
apply-inserted db (delete_rows n) r h = h

pub apply_all-IsLogged : (tx : Tx) (db : Db) → IsLogged db → IsLogged (apply_all db tx)
unfolding apply_all
apply_all-IsLogged [] db k = k
apply_all-IsLogged (w ∷ tx) db k = apply_all-IsLogged tx (apply db w) (apply-IsLogged db w k)

pub apply_all-inserted :
    (tx : Tx) (db : Db) (r : BatchRow)
    → contains db.inserted r ≡ true
    → contains (apply_all db tx).inserted r ≡ true
unfolding apply_all
apply_all-inserted [] db r h = h
apply_all-inserted (w ∷ tx) db r h = apply_all-inserted tx (apply db w) r (apply-inserted db w r h)

insert_row-inserted :
    (db : Db) (r : BatchRow) → IsLogged db → contains (apply db (insert_row r)).inserted r ≡ true
unfolding apply
insert_row-inserted db r k = ground (arith, k r)

module _ (nas_ip : Text) where
  -- After the rows of these names were inserted, each of them is in the log.
  rows_of-inserted :
      (names : List Text) (db : Db) (f : Text)
      → IsLogged db
      → contains names f ≡ true
      → contains (apply_all db (rows_of nas_ip names)).inserted (batch_row nas_ip f) ≡ true
  unfolding apply_all
  rows_of-inserted [] db f k h = absurd (cc h)
  rows_of-inserted (g ∷ names) db f k h = elim (text_eq.dec f g) [
    | yes p ↦ rw p (
        apply_all-inserted (rows_of nas_ip names) (apply db (insert_row (batch_row nas_ip g)))
          (batch_row nas_ip g) (insert_row-inserted db (batch_row nas_ip g) k))
    | no p ↦
        rows_of-inserted names (apply db (insert_row (batch_row nas_ip g))) f
          (apply-IsLogged db (insert_row (batch_row nas_ip g)) k) (ground arith)
  ]

  pub saved-inserted :
      (chunks : List Chunk) (names : List Text) (db : Db) (f : Text)
      → IsLogged db
      → contains names f ≡ true
      → contains
          (apply_all db (map insert_chunk chunks ++ rows_of nas_ip names)).inserted
          (batch_row nas_ip f)
        ≡ true
  unfolding apply_all
  saved-inserted [] names db f k h = rows_of-inserted names db f k h
  saved-inserted (c ∷ chunks) names db f k h =
      saved-inserted chunks names (apply db (insert_chunk c)) f
        (apply-IsLogged db (insert_chunk c) k) h

  -- A row that enters the log is one of these names that was not in the checkpoint.
  abbrev pub IsNew : Db → List Text → Text → Text → Type 0
  IsNew db names j f =
      (j ≡ nas_ip) × (contains names f ≡ true) × (contains db.flow_batch (batch_row j f) ≡ false)

  insert_row-IsNew :
      (db : Db) (g j f : Text)
      → contains (apply db (insert_row (batch_row nas_ip g))).inserted (batch_row j f) ≡ true
      → contains db.inserted (batch_row j f) ≡ false
      → (j ≡ nas_ip) × (f ≡ g) × (contains db.flow_batch (batch_row nas_ip g) ≡ false)
  unfolding apply
  insert_row-IsNew db g j f h k = ground arith

  IsNew-later :
      (db : Db) (g : Text) (names : List Text) (j f : Text)
      → IsNew (apply db (insert_row (batch_row nas_ip g))) names j f
      → IsNew db (g ∷ names) j f
  unfolding apply
  IsNew-later db g names j f (p, q, r) = (
    p,
    ground arith,
    ground (arith, contains-append db.flow_batch (batch_row nas_ip g ∷ []) (batch_row j f)),
  )

  rows_of-IsNew :
      (names : List Text) (db : Db) (j f : Text)
      → contains (apply_all db (rows_of nas_ip names)).inserted (batch_row j f) ≡ true
      → contains db.inserted (batch_row j f) ≡ false
      → IsNew db names j f
  unfolding apply_all
  rows_of-IsNew [] db j f h k = absurd (cc (h, k))
  rows_of-IsNew (g ∷ names) db j f h k =
      let db' = apply db (insert_row (batch_row nas_ip g)) in
      elim (Bool-cases (contains db'.inserted (batch_row j f))) [
        | inl p ↦
            (let q = insert_row-IsNew db g j f p k in (q.0, ground (arith, q.1), rw (q.0, q.1) q.2))
        | inr p ↦ IsNew-later db g names j f (rows_of-IsNew names db' j f h p)
      ]

  pub saved-IsNew :
      (chunks : List Chunk) (names : List Text) (db : Db) (j f : Text)
      → contains
          (apply_all db (map insert_chunk chunks ++ rows_of nas_ip names)).inserted
          (batch_row j f)
        ≡ true
      → contains db.inserted (batch_row j f) ≡ false
      → IsNew db names j f
  unfolding apply_all apply
  saved-IsNew [] names db j f h k = rows_of-IsNew names db j f h k
  saved-IsNew (c ∷ chunks) names db j f h k =
      saved-IsNew chunks names (apply db (insert_chunk c)) j f h k

  -- The rows of another directory are the same in both databases.
  abbrev pub SameElsewhere : Db → Db → Type 0
  SameElsewhere db db' =
      (j : Text)
      → j ≢ nas_ip
      → (f : Text)
      → contains db'.flow_batch (batch_row j f) ≡ contains db.flow_batch (batch_row j f)

  insert_row-SameElsewhere :
      (db : Db) (g : Text) → SameElsewhere db (apply db (insert_row (batch_row nas_ip g)))
  unfolding apply
  insert_row-SameElsewhere db g j p f =
      ground (arith, p, contains-append db.flow_batch (batch_row nas_ip g ∷ []) (batch_row j f))

  rows_of-SameElsewhere :
      (names : List Text) (db : Db) → SameElsewhere db (apply_all db (rows_of nas_ip names))
  unfolding apply_all
  rows_of-SameElsewhere [] db j p f = refl
  rows_of-SameElsewhere (g ∷ names) db j p f =
      rows_of-SameElsewhere names (apply db (insert_row (batch_row nas_ip g))) j p f
      ∙ insert_row-SameElsewhere db g j p f

  pub saved-SameElsewhere :
      (chunks : List Chunk) (names : List Text) (db : Db)
      → SameElsewhere db (apply_all db (map insert_chunk chunks ++ rows_of nas_ip names))
  unfolding apply_all
  saved-SameElsewhere [] names db j p f = rows_of-SameElsewhere names db j p f
  saved-SameElsewhere (c ∷ chunks) names db j p f =
      saved-SameElsewhere chunks names (apply db (insert_chunk c)) j p f ∙ (unfold apply in refl)

  pub delete_rows-SameElsewhere : (db : Db) → SameElsewhere db (apply db (delete_rows nas_ip))
  unfolding apply
  delete_rows-SameElsewhere db j p f = contains-select-other nas_ip (batch_row j f) db.flow_batch p

  pub delete_rows-IsLogged : (db : Db) → IsLogged db → IsLogged (apply db (delete_rows nas_ip))
  delete_rows-IsLogged db k = apply-IsLogged db (delete_rows nas_ip) k
