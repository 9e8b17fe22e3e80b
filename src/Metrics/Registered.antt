-- ===== src/Metrics/Registered.antt =====
-- All metrics are registered.
use aggregator_demo.Base.{
  ◌≡◌, refl, sym, ap, ◌∙◌, Bool, true, false, not, ◌&&◌, Option, none, List, [], ◌∷◌, ◌++◌, arith,
  text_eq, nat_eq, contains, contains-append,
}
use mathlib.Core.List.{append_assoc, append-nil}
use aggregator_demo.Base.Text.{Text}
use aggregator_demo.Entity.{Error}
use aggregator_demo.Metrics.Record.{Client}
use aggregator_demo.Metrics.Init.{Collector, collector_list, registered, register, new}

abbrev distinct : List Collector → Bool
distinct [] = true
distinct (x ∷ xs) = not (contains xs x) && distinct xs

collector_list-distinct : (has_db : Bool) → distinct (collector_list has_db) ≡ true
unfolding nat_eq text_eq
collector_list-distinct true = refl
collector_list-distinct false = refl

-- No collector of the list is held.
abbrev fresh_in : List Collector → List Collector → Bool
fresh_in held [] = true
fresh_in held (x ∷ xs) = not (contains held x) && fresh_in held xs

fresh_in-append :
    (held xs : List Collector) (x : Collector)
    → fresh_in held xs ≡ true
    → contains xs x ≡ false
    → fresh_in (held ++ x ∷ []) xs ≡ true
fresh_in-append held [] x h k = refl
fresh_in-append held (y ∷ xs) x h k =
    ground (arith, fresh_in-append held xs x, contains-append held (x ∷ []) y)

fresh_in-nil : (xs : List Collector) → fresh_in [] xs ≡ true
fresh_in-nil [] = refl
fresh_in-nil (x ∷ xs) = fresh_in-nil xs

module _ (answer : List Collector → Collector → Option Error)
    (accepts : (held : List Collector) (x : Collector)
      → contains held x ≡ false
      → answer held x ≡ none) where
  register-all :
      (xs held : List Collector) (logged : List Error)
      → distinct xs ≡ true
      → fresh_in held xs ≡ true
      → register answer xs (record { held = held; logged = logged })
        ≡ record { held = held ++ xs; logged = logged }
  unfolding register registered
  register-all [] held logged h k =
      ap (λ l. record { held = l; logged = logged }) (sym (append-nil held))
  register-all (x ∷ xs) held logged h k = rw (accepts held x (ground arith)) (
      register-all xs (held ++ x ∷ []) logged (ground arith)
        (fresh_in-append held xs x (ground arith) (ground arith))
      ∙ ap (λ l. record { held = l; logged = logged }) (append_assoc held (x ∷ []) xs))

  -- If the registry refuses only a collector that it holds, then `New` registers every collector of
  -- its list, that of the database exactly if there is one, and logs no error.
  pub new-registers :
      (c : Client) (version : Text) (has_db : Bool)
      → (new c answer version has_db).1 ≡ record { held = collector_list has_db; logged = [] }
  unfolding new
  new-registers c version has_db =
      register-all (collector_list has_db) [] [] (collector_list-distinct has_db)
        (fresh_in-nil (collector_list has_db))
