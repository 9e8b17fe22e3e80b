-- ===== src/Tests/LoadgenExamples.antt =====
-- The synthetic load at a small size, with a failure in its creation.
use aggregator_demo.Base.{
  ℕ, ◌≡◌, ◌≢◌, refl, ◌≤◌, ◌<◌, ap, true, false, none, some, [], ◌∷◌, arith, nat_eq, text_eq,
  if◌then◌else◌, ◌==◌,
}
use aggregator_demo.Base.Text.{codes, starts_with, split}
use aggregator_demo.Base.Strconv.Decimal.{itoa}
use aggregator_demo.Entity.{other}
use aggregator_demo.Aggregator.Save.{applied}
use aggregator_demo.Loadgen.{
  Load, LoadEnv, generated, seed_load, cleanup_load, session_by_index, client_ip_by_index,
  max_synthetic,
}
use aggregator_demo.Loadgen.Addresses.{octets, client_ip_by_index-fits}
use aggregator_demo.Loadgen.Undone.{IsReal, cleanup_load-seed_load}
use aggregator_demo.Tests.Data.{client, empty_db}

abbrev load_env : LoadEnv
load_env = record {
  generate = λ _. generated;
  begin = none;
  prepare = none;
  exec = λ _. none;
  commit = applied;
  read_root = none;
  remove_all = λ _. none;
  delete_chunks = none;
  delete_sessions = none;
}

-- The third row cannot be written.
abbrev failing_env : LoadEnv
failing_env = record load_env { exec = λ i. if i == 2 then some (other 1) else none }

abbrev real_load : Load
real_load = record {
  dirs = codes "192.168.0.1" ∷ [];
  db = record empty_db { online_session = client ∷ [] };
}

client-differs : (i : ℕ) → client.ip ≢ (session_by_index i).ip
unfolding session_by_index client_ip_by_index starts_with nat_eq
client-differs i p = let q : false ≡ true = ap (λ t. starts_with t (codes "127")) p in absurd (cc q)

real_load-IsReal : IsReal real_load
unfolding starts_with nat_eq
real_load-IsReal = record {
  dirs = (refl, tt);
  sessions = (refl, tt);
  chunks = tt;
  room = ((λ q i. client-differs i), tt);
}

removed : (cleanup_load load_env (seed_load failing_env 3 real_load).0).1 ≡ none
unfolding cleanup_load seed_load text_eq starts_with nat_eq itoa
removed = refl

cleanup_load-seed_load_example :
    (cleanup_load load_env (seed_load failing_env 3 real_load).0).0 ≡ real_load
cleanup_load-seed_load_example =
    cleanup_load-seed_load failing_env load_env 3 real_load real_load-IsReal removed

client_ip_by_index-fits_example :
    ((x : ℕ) × ((y : ℕ) × ((split b'.' (client_ip_by_index 3809) ≡ octets (itoa x) (itoa y))
          × ((1 ≤ x) × (x ≤ 15))
          × ((1 ≤ y) × (y ≤ 254)))))
    × ((j : ℕ) → j < max_synthetic → client_ip_by_index 3809 ≡ client_ip_by_index j → 3809 ≡ j)
client_ip_by_index-fits_example = client_ip_by_index-fits 3809 (omega arith)
