-- ===== src/Storage/Whole.antt =====
-- A stream that ends without an error has read every flow file that is not in the checkpoint to its
-- end, whatever may fail.
use mathlib.Core.Path.{subst}
use aggregator_demo.Base.{
  ◌≡◌, ◌≢◌, ◌∙◌, refl, ap, ℕ, ◌+◌, Option, none, some, List, [], ◌∷◌, ◌++◌, arith, length, take,
  Bool, text_eq, nat_eq, false,
}
use aggregator_demo.Base.Text.{Text, split}
use aggregator_demo.Base.Map.{Map, get_or}
use aggregator_demo.Entity.{Error}
use aggregator_demo.Storage.{
  Dir, NasDir, Faults, Entry, ignored, skipped, fresh, entry_of, contents, Streamed, stream_lines,
  stream_file, go_on, stream_entry, stream_entries, stream_tmp, stream_flow,
}
use aggregator_demo.Storage.Scan.{Scanned, ends, line, scan, yielded}
use aggregator_demo.Storage.Ready.{scan_error, tmp_entries}
use aggregator_demo.Storage.Lines.{
  lines_of, file_lines, entry_lines, fresh_lines, flow_lines, fresh_lines-flow_lines, called,
  called-append,
}

yielded-failed : (x : Error) (pieces : List Text) → scan_error (yielded (some x) pieces) ≢ none
unfolding yielded scan_error
yielded-failed x [] h = cc h
yielded-failed x ([] ∷ []) h = cc h
yielded-failed x ([] ∷ piece ∷ rest) h = yielded-failed x (piece ∷ rest) (ground arith)
yielded-failed x ((c ∷ piece) ∷ rest) h = yielded-failed x rest (ground arith)

-- A read that fails is reported, whatever was read before.
scan-failed : (x : Error) (bytes : Text) → scan_error (scan bytes (some x)) ≢ none
unfolding scan
scan-failed x bytes = yielded-failed x (split b'\n' bytes)

module _ {ℓ} {S : Type ℓ} (f : Faults) (on_line : S → Text → S × Option Error)
    (quiet : (s : S) (text : Text) → (on_line s text).1 ≡ none) where
  -- Without an error the callback was called with exactly these lines.
  abbrev pub WasRead : S → List Text → Streamed S → Type ℓ
  WasRead s lines r = r.error ≡ none → r.state ≡ called on_line quiet s lines

  stream_lines-read :
      (names : List Text) (s : S) (size : ℕ) (x : Scanned)
      → let r = stream_lines f on_line names s size x in
        (r.error ≡ scan_error x) × (r.state ≡ called on_line quiet s (lines_of x))
  unfolding stream_lines scan_error called lines_of
  stream_lines-read names s size (ends e) = (refl, refl)
  stream_lines-read names s size (line text rest) =
      rw (quiet s text, stream_lines)
        (stream_lines-read names (on_line s text).0 (size + length text + 1) rest)

  stream_file-WasRead :
      (names : List Text) (s : S) (size : ℕ) (name bytes : Text)
      → WasRead s (file_lines bytes) (stream_file f on_line names s size name bytes)
  unfolding stream_file contents file_lines
  stream_file-WasRead names s size name bytes = opened (f.open_file name) (f.read_file name)
    where
      opened :
          (o : Option Error) (r : Option (ℕ × Error))
          → WasRead s (lines_of (scan bytes none)) (elim o [
            | some e ↦ record { state = s; names = names; size = size; error = some e }
            | none ↦
                stream_lines f on_line names s size
                  (elim r [ none ↦ scan bytes none | some (n, e) ↦ scan (take n bytes) (some e) ])
          ])
      opened (some e) r = λ h. absurd (cc h)
      opened none none = λ h. (stream_lines-read names s size (scan bytes none)).1
      opened none (some (n, e)) = λ h.
          let x = scan (take n bytes) (some e) in
          absurd (scan-failed e (take n bytes) (cc ((stream_lines-read names s size x).0, h)))

  module _ (more : List Text → S → ℕ → Streamed S) (rest : List Text)
      (h : (names : List Text) (s : S) (size : ℕ) → WasRead s rest (more names s size)) where
    go_on-WasRead :
        (names lines : List Text) (s : S) (r : Streamed S) (e : Option Error)
        → r.error ≡ e
        → WasRead s lines r
        → WasRead s (lines ++ rest) (go_on f on_line (more names) r e)
    unfolding go_on
    go_on-WasRead names lines s r (some e) p k = λ q. absurd (cc (p, q))
    go_on-WasRead names lines s r none p k = λ q.
        h names r.state r.size q
        ∙ ap (λ t. called on_line quiet t rest) (k p)
        ∙ rw (called-append on_line quiet s lines rest) refl

    stream_entry-WasRead :
        (names : List Text) (s : S) (size : ℕ) (name : Text) (x : Entry)
        → WasRead s (entry_lines x ++ rest) (stream_entry f on_line more names s size name x)
    unfolding stream_entry entry_lines
    stream_entry-WasRead names s size name ignored = h names s size
    stream_entry-WasRead names s size name skipped = h (names ++ name ∷ []) s size
    stream_entry-WasRead names s size name (fresh bytes) =
        let m = names ++ name ∷ [] in
        let r = stream_file f on_line m s size name bytes in
        go_on-WasRead m (file_lines bytes) s r r.error refl
          (stream_file-WasRead m s size name bytes)

  stream_entries-WasRead :
      (skip : Map Text Bool) (d : Dir) (names : List Text) (s : S) (size : ℕ)
      → WasRead s (fresh_lines skip d) (stream_entries f on_line skip d names s size)
  unfolding stream_entries called fresh_lines
  stream_entries-WasRead skip [] names s size = λ h. refl
  stream_entries-WasRead skip ((name, node) ∷ d) names s size =
      stream_entry-WasRead (stream_entries f on_line skip d) (fresh_lines skip d)
        (stream_entries-WasRead skip d) names s size name (entry_of skip name node)

  stream_tmp-WasRead :
      (fault : Option Error) (skip : Map Text Bool) (s : S) (tmp : Option Dir)
      → WasRead s (fresh_lines skip (tmp_entries tmp)) (stream_tmp f on_line fault skip s tmp)
  unfolding stream_tmp
  stream_tmp-WasRead (some e) skip s tmp = λ h. absurd (cc h)
  stream_tmp-WasRead none skip s none = λ h. absurd (cc h)
  stream_tmp-WasRead none skip s (some t) = stream_entries-WasRead skip t [] s 0

  -- When `StreamFlow` of the storage ends without an error, the callback was called with each line of
  -- the flow files of `tmp` that are not in the checkpoint, in their order, and with no other.
  pub stream_flow-WasRead :
      (skip : Map Text Bool) (s : S) (d : NasDir)
      → WasRead s
          (flow_lines (λ x. get_or x skip false) (tmp_entries d.tmp))
          (stream_flow f on_line skip s d)
  unfolding stream_flow
  stream_flow-WasRead skip s d =
      subst (λ lines. WasRead s lines (stream_tmp f on_line f.read_tmp skip s d.tmp))
        (fresh_lines-flow_lines skip (tmp_entries d.tmp))
        (stream_tmp-WasRead f.read_tmp skip s d.tmp)
