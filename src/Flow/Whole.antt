-- ===== src/Flow/Whole.antt =====
-- `StreamFlow` of the usecase that ends without an error has read all that it had to read.
use aggregator_demo.Base.{◌≡◌, refl, Bool, false, Option, none, some, List, text_eq}
use aggregator_demo.Base.Text.{Text}
use aggregator_demo.Base.Map.{Map, get_or}
use aggregator_demo.Entity.{Error, no_data, Result, ok, err}
use aggregator_demo.Storage.{NasDir, Faults, read_file_names_in_flow_dir, stream_flow, Streamed}
use aggregator_demo.Storage.Ready.{tmp_entries}
use aggregator_demo.Storage.Lines.{flow_lines, called}
use aggregator_demo.Storage.Whole.{WasRead, stream_flow-WasRead}
use aggregator_demo.Flow.{with_error, failed, streamed, by_names, move_files, prepare_and_stream}

module _ {ℓ} {S : Type ℓ} (f : Faults) (on_line : S → Text → S × Option Error)
    (quiet : (s : S) (text : Text) → (on_line s text).1 ≡ none) (skip : Map Text Bool) (s : S) where
  -- Without an error, the callback had each line of the uncounted files that are then in `tmp`.
  abbrev pub IsWhole : NasDir × Streamed S → Type ℓ
  IsWhole r =
      WasRead f on_line quiet s (flow_lines (λ x. get_or x skip false) (tmp_entries r.0.tmp)) r.1

  with_error-WasRead :
      (lines : List Text) (r : Streamed S) (e : Option Error)
      → WasRead f on_line quiet s lines r
      → r.error ≡ e
      → WasRead f on_line quiet s lines (with_error f on_line r e)
  unfolding with_error
  with_error-WasRead lines r none h p = h
  with_error-WasRead lines r (some e) h p = λ k. absurd (cc k)

  streamed-IsWhole : (r : NasDir × Option Error) → IsWhole (streamed f on_line skip s r)
  unfolding streamed failed
  streamed-IsWhole (d, some e) = λ p. absurd (cc p)
  streamed-IsWhole (d, none) =
      with_error-WasRead (flow_lines (λ x. get_or x skip false) (tmp_entries d.tmp))
        (stream_flow f on_line skip s d) (stream_flow f on_line skip s d).error
        (stream_flow-WasRead f on_line quiet skip s d) refl

  by_names-IsWhole : (d : NasDir) (r : Result (List Text)) → IsWhole (by_names f on_line skip s d r)
  unfolding by_names failed
  by_names-IsWhole d (ok names) = streamed-IsWhole (move_files f names d)
  by_names-IsWhole d (err no_data) = λ p. absurd (cc p)
  by_names-IsWhole d (err e) = λ p. absurd (cc p)

  -- When `StreamFlow` returns without an error, whatever could have failed, the callback was called
  -- with each line of the flow files that are in `tmp` then and not in the checkpoint, in the order
  -- of the listing, and with no other. Each file was read to its end. The callback gives no error.
  pub prepare_and_stream-IsWhole :
      (d : NasDir)
      → let r = prepare_and_stream f on_line skip s d in
        r.1.error ≡ none
        → r.1.state
          ≡ called on_line quiet s (flow_lines (λ x. get_or x skip false) (tmp_entries r.0.tmp))
  unfolding prepare_and_stream
  prepare_and_stream-IsWhole d = by_names-IsWhole d (read_file_names_in_flow_dir f d)
