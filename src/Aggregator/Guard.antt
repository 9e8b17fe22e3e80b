-- ===== src/Aggregator/Guard.antt =====
-- The invariant of the checkpoint, and what the writes to the database do to it.
use aggregator_demo.Base.{
  ◌≡◌, ◌≢◌, true, false, List, [], ◌∷◌, arith, ◌==◌, text_eq, if◌then◌else◌, contains,
  contains-append, select, Bool-cases, inl, inr,
}
use aggregator_demo.Base.Text.{Text}
use aggregator_demo.Base.Map.{has}
use aggregator_demo.Database.{BatchRow, batch_row, row_eq, Db, insert_row, delete_rows, apply}
use aggregator_demo.Storage.{NasDir}
use aggregator_demo.Storage.Lookup.{tmp_has, is_flow_name, Moved}

-- No row stands twice.
abbrev pub Once : List BatchRow → Type 0
Once [] = Unit
Once (r ∷ rows) = (contains rows r ≡ false) × Once rows

-- A file that waits in the directory was never counted; a flow file in `tmp` that was counted is in
-- the checkpoint; and no flow file is in both places.
pub record IsGuarded (nas_ip : Text) (d : NasDir) (db : Db) : Type 0 where
  pub waiting :
      (f : Text) → has f d.entries ≡ true → contains db.inserted (batch_row nas_ip f) ≡ false
  pub marked :
      (f : Text)
      → is_flow_name f ≡ true
      → tmp_has f d ≡ true
      → contains db.inserted (batch_row nas_ip f) ≡ true
      → contains db.flow_batch (batch_row nas_ip f) ≡ true
  pub apart : (f : Text) → is_flow_name f ≡ true → has f d.entries ≡ true → tmp_has f d ≡ false

pub IsGuarded-Moved :
    (nas_ip : Text) (db : Db) (d d' : NasDir)
    → Moved d d'
    → IsGuarded nas_ip d db
    → IsGuarded nas_ip d' db
IsGuarded-Moved nas_ip db d d' m g = record {
  waiting = λ f h. g.waiting f (m.left f h);
  marked = λ f k h p. ground (arith, m.entered f h, g.waiting f, g.marked f k);
  apart = λ f k h. ground (arith, m.left f h, g.apart f k, m.entered f, m.gone f);
}

contains-select :
    (nas_ip : Text) (r : BatchRow) (rows : List BatchRow)
    → r.nas_ip ≢ nas_ip
    → contains rows r ≡ true
    → contains (select (λ x. if x.nas_ip == nas_ip then false else true) rows) r ≡ true
contains-select nas_ip r [] h k = k
contains-select nas_ip r (x ∷ rows) h k = ground (arith, contains-select nas_ip r rows h)

module _ (j : Text) (d : NasDir) (db : Db) where
  pub IsGuarded-insert_row :
      (r : BatchRow)
      → (j ≡ r.nas_ip → has r.file_name d.entries ≡ false)
      → IsGuarded j d db
      → IsGuarded j d (apply db (insert_row r))
  unfolding apply
  IsGuarded-insert_row r out g = elim (Bool-cases (contains db.flow_batch r)) [
    | inl e ↦ rw e g
    | inr e ↦ rw e (record {
      waiting = λ f h. ground (arith, g.waiting f h);
      marked = λ f k h p.
          ground (arith, g.marked f k h, contains-append db.flow_batch (r ∷ []) (batch_row j f));
      apart = g.apart;
    })
  ]

  pub IsGuarded-delete_rows :
      (nas_ip : Text)
      → (j ≡ nas_ip → (f : Text) → is_flow_name f ≡ true → tmp_has f d ≡ false)
      → IsGuarded j d db
      → IsGuarded j d (apply db (delete_rows nas_ip))
  unfolding apply
  IsGuarded-delete_rows nas_ip clean g = record {
    waiting = g.waiting;
    marked = λ f k h p. elim (text_eq.dec j nas_ip) [
      | yes e ↦ absurd (cc (clean e f k, h))
      | no e ↦ contains-select nas_ip (batch_row j f) db.flow_batch e (g.marked f k h p)
    ];
    apart = g.apart;
  }
