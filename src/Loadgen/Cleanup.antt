-- ===== src/Loadgen/Cleanup.antt =====
-- What the creation of a synthetic load leaves as it was, however it ends.
use aggregator_demo.Base.{
  ℕ, zero, suc, ◌≡◌, ◌≢◌, refl, ap, ◌∙◌, Bool, true, false, none, some, List, [], ◌∷◌, arith, ltb,
  not, Option, Bool-cases, inl, inr, nat_eq, ◌==◌, text_eq, select, All,
}
use aggregator_demo.Base.Text.{Text, starts_with}
use aggregator_demo.Entity.{Error, OnlineSession, Chunk}
use aggregator_demo.Database.{Db}
use aggregator_demo.Aggregator.Save.{Commit, applied, refused, applied_unanswered}
use aggregator_demo.Loadgen.{
  synthetic_sess_id_base, synthetic_nas_prefix, nas_ip_by_index, upsert, session_by_index,
  Generation, generated, no_dir, no_file, LoadEnv, with_dir, after_generate, seed_dirs, seed_rows,
  seed_committed, seed_db, after_dirs, unless_error,
}

abbrev pub is_real : OnlineSession → Bool
is_real s = ltb s.sess_id synthetic_sess_id_base

abbrev pub is_real_chunk : Chunk → Bool
is_real_chunk c = ltb c.sess_id synthetic_sess_id_base

abbrev pub is_other_dir : Text → Bool
is_other_dir name = not (starts_with name synthetic_nas_prefix)

-- No row that is not synthetic has a synthetic address.
abbrev pub HasRoom : List OnlineSession → Type 0
HasRoom rows = All (λ r. is_real r ≡ true → (i : ℕ) → r.ip ≢ (session_by_index i).ip) rows

pub select-all {ℓ} :
    {A : Type ℓ} (p : A → Bool) (xs : List A) → All (λ x. p x ≡ true) xs → select p xs ≡ xs
select-all p [] h = refl
select-all p (x ∷ xs) h = rw h.0 (ap (λ l. x ∷ l) (select-all p xs h.1))

session_by_index-synthetic : (i : ℕ) → is_real (session_by_index i) ≡ false
unfolding session_by_index
session_by_index-synthetic i = ground arith

select-upsert :
    (i : ℕ) (rows : List OnlineSession)
    → HasRoom rows
    → select is_real (upsert (session_by_index i) rows) ≡ select is_real rows
unfolding upsert
select-upsert i [] k = rw (session_by_index-synthetic i) refl
select-upsert i (r ∷ rows) k = elim (text_eq.dec r.ip (session_by_index i).ip) [
  | yes p ↦ elim (Bool-cases (is_real r)) [
    | inl q ↦ absurd (k.0 q i p)
    | inr q ↦ ground (arith, session_by_index-synthetic i, p, q)
  ]
  | no p ↦ ground (arith, p, select-upsert i rows k.1)
]

upsert-HasRoom :
    (i : ℕ) (rows : List OnlineSession) → HasRoom rows → HasRoom (upsert (session_by_index i) rows)
unfolding upsert
upsert-HasRoom i [] k = (λ q. absurd (cc (q, session_by_index-synthetic i)), tt)
upsert-HasRoom i (r ∷ rows) k = elim (Bool-cases (r.ip == (session_by_index i).ip)) [
  | inl p ↦ rw p ((λ q. absurd (cc (q, session_by_index-synthetic i))), k.1)
  | inr p ↦ rw p (k.0, upsert-HasRoom i rows k.1)
]

select-with_dir :
    (name : Text) (dirs : List Text)
    → is_other_dir name ≡ false
    → select is_other_dir (with_dir name dirs) ≡ select is_other_dir dirs
unfolding with_dir
select-with_dir name [] h = rw h refl
select-with_dir name (d ∷ dirs) h = ground (arith, select-with_dir name dirs h)

nas_ip-synthetic : (i : ℕ) → is_other_dir (nas_ip_by_index i) ≡ false
unfolding nas_ip_by_index starts_with nat_eq
nas_ip-synthetic i = refl

module _ (e : LoadEnv) where
  select-after_generate :
      (more : List Text → List Text × Option Error) (i : ℕ) (dirs : List Text) (x : Generation)
      → ((d : List Text) → select is_other_dir (more d).0 ≡ select is_other_dir d)
      → select is_other_dir (after_generate e more (nas_ip_by_index i) dirs x).0
        ≡ select is_other_dir dirs
  unfolding after_generate
  select-after_generate more i dirs generated k =
      k (with_dir (nas_ip_by_index i) dirs)
      ∙ select-with_dir (nas_ip_by_index i) dirs (nas_ip-synthetic i)
  select-after_generate more i dirs (no_dir x) k = refl
  select-after_generate more i dirs (no_file x) k =
      select-with_dir (nas_ip_by_index i) dirs (nas_ip-synthetic i)

  pub select-seed_dirs :
      (k i : ℕ) (dirs : List Text)
      → select is_other_dir (seed_dirs e k i dirs).0 ≡ select is_other_dir dirs
  unfolding seed_dirs
  select-seed_dirs zero i dirs = refl
  select-seed_dirs (suc k) i dirs =
      select-after_generate (seed_dirs e k (suc i)) i dirs (e.generate i)
        (select-seed_dirs k (suc i))

  unless_error-holds {ℓ} :
      {A : Type ℓ} (P : A → Type 0) (o : Option Error) (a : A) (rest : A × Option Error)
      → P a
      → P rest.0
      → P (unless_error o a rest).0
  unfolding unless_error
  unless_error-holds P (some x) a rest h k = h
  unless_error-holds P none a rest h k = k

  select-seed_rows :
      (k i : ℕ) (rows : List OnlineSession)
      → HasRoom rows
      → select is_real (seed_rows e k i rows).0 ≡ select is_real rows
  unfolding seed_rows
  select-seed_rows zero i rows h = refl
  select-seed_rows (suc k) i rows h =
      unless_error-holds (λ r. select is_real r ≡ select is_real rows) (e.exec i) rows
        (seed_rows e k (suc i) (upsert (session_by_index i) rows)) refl
        (select-seed_rows k (suc i) (upsert (session_by_index i) rows) (upsert-HasRoom i rows h)
          ∙ select-upsert i rows h)

  -- The database has the real sessions that it had, and is otherwise unchanged.
  abbrev pub IsSeeded : Db → Db → Type 0
  IsSeeded db db' =
      (rows : List OnlineSession) × ((db' ≡ record db { online_session = rows })
        × (select is_real rows ≡ select is_real db.online_session))

  IsSeeded-refl : (db : Db) → IsSeeded db db
  IsSeeded-refl db = (db.online_session, (refl, refl))

  seed_committed-IsSeeded :
      (db : Db) (r : List OnlineSession × Option Error) (o : Commit)
      → select is_real r.0 ≡ select is_real db.online_session
      → IsSeeded db (seed_committed e db r o).0
  unfolding seed_committed
  seed_committed-IsSeeded db (rows, some x) o h = IsSeeded-refl db
  seed_committed-IsSeeded db (rows, none) (refused x) h = IsSeeded-refl db
  seed_committed-IsSeeded db (rows, none) (applied_unanswered x) h = (rows, (refl, h))
  seed_committed-IsSeeded db (rows, none) applied h = (rows, (refl, h))

  seed_db-IsSeeded : (n : ℕ) (db : Db) → HasRoom db.online_session → IsSeeded db (seed_db e n db).0
  unfolding seed_db
  seed_db-IsSeeded n db h =
      let r = seed_committed e db (seed_rows e n 0 db.online_session) e.commit in
      unless_error-holds (IsSeeded db) e.begin db (unless_error e.prepare db r) (IsSeeded-refl db) (
        unless_error-holds (IsSeeded db) e.prepare db r (IsSeeded-refl db) (
          seed_committed-IsSeeded db (seed_rows e n 0 db.online_session) e.commit
            (select-seed_rows n 0 db.online_session h)))

  pub after_dirs-IsSeeded :
      (n : ℕ) (db : Db) (r : List Text × Option Error)
      → HasRoom db.online_session
      → ((after_dirs e n db r).0.dirs ≡ r.0) × IsSeeded db (after_dirs e n db r).0.db
  unfolding after_dirs
  after_dirs-IsSeeded n db (dirs, some x) h = (refl, IsSeeded-refl db)
  after_dirs-IsSeeded n db (dirs, none) h = (refl, seed_db-IsSeeded n db h)
