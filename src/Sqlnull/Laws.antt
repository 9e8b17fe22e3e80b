-- ===== src/Sqlnull/Laws.antt =====
-- Values go through the database and come back.
use aggregator_demo.Base.{
  ◌≡◌, refl, Bool, true, false, Option, none, some, text_eq, if◌then◌else◌, arith,
}
use aggregator_demo.Entity.{Error}
use aggregator_demo.Sqlnull.{Null, set_scanned, value_of}

-- What `Scan` of database/sql documents for a value of a type, and for nil.
pub record IsDriver {ℓ} {A V : Type ℓ} (zero : A) (inject : Option A → V) (is_nil : V → Bool)
    (scan : V → A × Option Error) : Type ℓ where
  pub scans : (a : A) → scan (inject (some a)) ≡ (a, none)
  pub scans_nil : scan (inject none) ≡ (zero, none)
  pub is_value : (a : A) → is_nil (inject (some a)) ≡ false
  pub is_null : is_nil (inject none) ≡ true

module _ {ℓ} {A V : Type ℓ} (zero : A) (inject : Option A → V) (is_nil : V → Bool)
    (scan : V → A × Option Error) (h : IsDriver zero inject is_nil scan) where
  abbrev scanned : Null A → V → Null A × Option Error
  scanned old v = set_scanned old (is_nil v) (scan v)

  scanned-chosen :
      (old n : Null A) (b : Bool)
      → b ≡ n.valid
      → scanned old (inject (if b then some n.value else none))
        ≡ (record { value = if b then n.value else zero; valid = n.valid }, none)
  unfolding set_scanned
  scanned-chosen old n true p = ground (arith, h.scans n.value, h.is_value n.value)
  scanned-chosen old n false p = ground (arith, h.scans_nil, h.is_null)

  -- What `Value` hands to the driver, `Scan` reads back: the same validity, and the same value
  -- if it is valid, else the zero value.
  pub scanned-value :
      (old n : Null A)
      → set_scanned old (is_nil (inject (value_of n))) (scan (inject (value_of n)))
        ≡ (record { value = if n.valid then n.value else zero; valid = n.valid }, none)
  unfolding value_of
  scanned-value old n = scanned-chosen old n n.valid refl
