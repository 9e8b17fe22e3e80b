-- ===== src/Loadgen/Undone.antt =====
-- Removing the synthetic load undoes its creation.
use aggregator_demo.Base.{
  ℕ, ◌≡◌, refl, ap, ◌∙◌, true, none, some, Option, List, [], ◌∷◌, text_eq, select, All, Bool-cases,
  inl, inr, nat_eq,
}
use aggregator_demo.Base.Text.{Text, starts_with}
use aggregator_demo.Entity.{Error}
use aggregator_demo.Database.{Db}
use aggregator_demo.Loadgen.{
  synthetic_nas_prefix, Load, LoadEnv, seed_dirs, after_dirs, seed_load, remove_dirs, cleanup_db,
  after_removal, cleanup_load, unless_error, kept_first, delete_chunk_rows, delete_session_rows,
}
use aggregator_demo.Loadgen.Cleanup.{
  is_real, is_real_chunk, is_other_dir, HasRoom, IsSeeded, select-all, select-seed_dirs,
  after_dirs-IsSeeded,
}

module _ (e : LoadEnv) where
  kept_first-dirs :
      (name : Text) (r : List Text × Option Error) (dirs : List Text)
      → ((kept_first e name r).1 ≡ none → r.1 ≡ none) × ((kept_first e name r).0 ≡ name ∷ r.0)
  unfolding kept_first
  kept_first-dirs name (d, o) dirs = (λ h. h, refl)

  removed_one :
      (o : Option Error) (name : Text) (dirs : List Text) (r : List Text × Option Error)
      → (unless_error o (name ∷ dirs) r).1 ≡ none
      → (r.1 ≡ none) × ((unless_error o (name ∷ dirs) r).0 ≡ r.0)
  unfolding unless_error
  removed_one (some x) name dirs r h = absurd (cc h)
  removed_one none name dirs r h = (h, refl)

  remove_dirs-select :
      (dirs : List Text)
      → (remove_dirs e dirs).1 ≡ none
      → (remove_dirs e dirs).0 ≡ select is_other_dir dirs
  unfolding remove_dirs
  remove_dirs-select [] h = refl
  remove_dirs-select (name ∷ dirs) h = elim (Bool-cases (starts_with name synthetic_nas_prefix)) [
    | inl p ↦
        (let q = removed_one (e.remove_all name) name dirs (remove_dirs e dirs) (rw p at h) in
          rw p (q.1 ∙ remove_dirs-select dirs q.0))
    | inr p ↦
        (let q = kept_first-dirs name (remove_dirs e dirs) dirs in
          rw p (q.1 ∙ ap (λ x. name ∷ x) (remove_dirs-select dirs (q.0 (rw p at h)))))
  ]

  -- The database without the synthetic rows.
  abbrev cleaned_db : Db → Db
  cleaned_db db = record db {
    chunk = select is_real_chunk db.chunk;
    online_session = select is_real db.online_session;
  }

  cleanup_db-none : (db : Db) → (cleanup_db e db).1 ≡ none → (cleanup_db e db).0 ≡ cleaned_db db
  unfolding cleanup_db delete_chunk_rows delete_session_rows
  cleanup_db-none db h = two e.delete_chunks e.delete_sessions h
    where
      two :
          (a b : Option Error)
          → (unless_error a db (
              unless_error b
                (delete_chunk_rows e db)
                (delete_session_rows e (delete_chunk_rows e db), none))).1
            ≡ none
          → (unless_error a db (
              unless_error b
                (delete_chunk_rows e db)
                (delete_session_rows e (delete_chunk_rows e db), none))).0
            ≡ cleaned_db db
      two (some x) b h = absurd (cc h)
      two none (some x) h = absurd (cc h)
      two none none h = refl

  after_removal-none :
      (db : Db) (r : List Text × Option Error) (dirs : List Text)
      → (r.1 ≡ none → r.0 ≡ dirs)
      → (after_removal e db r).1 ≡ none
      → (after_removal e db r).0 ≡ record { dirs = dirs; db = cleaned_db db }
  unfolding after_removal
  after_removal-none db (d, some x) dirs h k = absurd (cc k)
  after_removal-none db (d, none) dirs h k =
      let p = h refl in let q = cleanup_db-none db k in λ i. record { dirs = p i; db = q i }

  cleanup_load-none :
      (l : Load)
      → (cleanup_load e l).1 ≡ none
      → (cleanup_load e l).0 ≡ record { dirs = select is_other_dir l.dirs; db = cleaned_db l.db }
  unfolding cleanup_load
  cleanup_load-none l h = read e.read_root h
    where
      read :
          (o : Option Error)
          → (unless_error o l (after_removal e l.db (remove_dirs e l.dirs))).1 ≡ none
          → (unless_error o l (after_removal e l.db (remove_dirs e l.dirs))).0
            ≡ record { dirs = select is_other_dir l.dirs; db = cleaned_db l.db }
      read (some x) h = absurd (cc h)
      read none h =
          after_removal-none l.db (remove_dirs e l.dirs) (select is_other_dir l.dirs)
            (remove_dirs-select l.dirs) h

-- Nothing of the load is synthetic, and no real client has a synthetic address.
pub record IsReal (l : Load) : Type 0 where
  pub dirs : All (λ d. is_other_dir d ≡ true) l.dirs
  pub sessions : All (λ s. is_real s ≡ true) l.db.online_session
  pub chunks : All (λ c. is_real_chunk c ≡ true) l.db.chunk
  pub room : HasRoom l.db.online_session

restored-db :
    (e : LoadEnv) (l : Load) (db' : Db) → IsReal l → IsSeeded e l.db db' → cleaned_db e db' ≡ l.db
restored-db e l db' r (rows, (p, q)) = ap (cleaned_db e) p ∙ (λ i. record l.db {
  chunk = select-all is_real_chunk l.db.chunk r.chunks i;
  online_session = (q ∙ select-all is_real l.db.online_session r.sessions) i;
})

-- Whatever fails while the synthetic load is created, at whichever file or row: a removal that
-- ends without an error leaves the directories and the database that were there before. The
-- directories, sessions and chunks before are taken not to be synthetic themselves.
pub cleanup_load-seed_load :
    (seeding cleaning : LoadEnv) (n : ℕ) (l : Load)
    → IsReal l
    → (cleanup_load cleaning (seed_load seeding n l).0).1 ≡ none
    → (cleanup_load cleaning (seed_load seeding n l).0).0 ≡ l
unfolding seed_load
cleanup_load-seed_load seeding cleaning n l r h =
    let made = seed_dirs seeding n 0 l.dirs in
    let s = after_dirs-IsSeeded seeding n l.db made r.room in
    let dirs =
      ap (select is_other_dir) s.0
      ∙ select-seed_dirs seeding n 0 l.dirs
      ∙ select-all is_other_dir l.dirs r.dirs in
    let db = restored-db seeding l (after_dirs seeding n l.db made).0.db r s.1 in
    cleanup_load-none cleaning (after_dirs seeding n l.db made).0 h
    ∙ (λ i. record { dirs = dirs i; db = db i })
