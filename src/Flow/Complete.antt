-- ===== src/Flow/Complete.antt =====
-- `StreamFlow` of the usecase that ends without an error has named every flow file of `tmp`.
use aggregator_demo.Base.{◌≡◌, refl, true, Bool, Option, none, some, List, text_eq}
use aggregator_demo.Base.Text.{Text}
use aggregator_demo.Base.Map.{Map}
use aggregator_demo.Entity.{Error, no_data, Result, ok, err}
use aggregator_demo.Storage.{NasDir, Faults, read_file_names_in_flow_dir, stream_flow, Streamed}
use aggregator_demo.Storage.Lookup.{is_flow_name}
use aggregator_demo.Storage.Complete.{Names, tmp_file, stream_flow-Names}
use aggregator_demo.Flow.{with_error, failed, streamed, by_names, move_files, prepare_and_stream}

module _ {ℓ} {S : Type ℓ} (f : Faults) (on_line : S → Text → S × Option Error) (j : Text)
    (flow : is_flow_name j ≡ true) (skip : Map Text Bool) (s : S) where
  -- Without an error, a regular file of `tmp` behind the call is among the names.
  abbrev pub IsComplete : NasDir × Streamed S → Type 0
  IsComplete r = tmp_file j r.0 ≡ true → Names f on_line j r.1

  with_error-Names :
      (r : Streamed S) (e : Option Error)
      → r.error ≡ e
      → Names f on_line j r
      → Names f on_line j (with_error f on_line r e)
  unfolding with_error
  with_error-Names r none p h = h
  with_error-Names r (some e) p h = λ k. absurd (cc k)

  streamed-IsComplete : (r : NasDir × Option Error) → IsComplete (streamed f on_line skip s r)
  unfolding streamed failed
  streamed-IsComplete (d, some e) = λ k p. absurd (cc p)
  streamed-IsComplete (d, none) = λ k.
      with_error-Names (stream_flow f on_line skip s d) (stream_flow f on_line skip s d).error refl
        (stream_flow-Names f on_line j skip s d flow k)

  by_names-IsComplete :
      (d : NasDir) (r : Result (List Text)) → IsComplete (by_names f on_line skip s d r)
  unfolding by_names failed
  by_names-IsComplete d (ok names) = streamed-IsComplete (move_files f names d)
  by_names-IsComplete d (err no_data) = λ k p. absurd (cc p)
  by_names-IsComplete d (err e) = λ k p. absurd (cc p)

  -- When `StreamFlow` returns without an error, each flow file of `tmp` is among the names that it
  -- returns, those that were skipped included.
  pub prepare_and_stream-IsComplete :
      (d : NasDir) → IsComplete (prepare_and_stream f on_line skip s d)
  unfolding prepare_and_stream
  prepare_and_stream-IsComplete d = by_names-IsComplete d (read_file_names_in_flow_dir f d)
