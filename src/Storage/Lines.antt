-- ===== src/Storage/Lines.antt =====
-- The lines that `StreamFlow` hands to its callback when no call fails.
use aggregator_demo.Base.{
  ◌≡◌, ◌∙◌, refl, ap, ℕ, ◌+◌, ◌⊎◌, inl, inr, Bool, false, Bool-cases, not, ◌&&◌, if◌then◌else◌,
  Option, none, some, List, [], ◌∷◌, ◌++◌, arith, length, text_eq, All,
}
use aggregator_demo.Base.Text.{Text}
use aggregator_demo.Base.Map.{Map, get_or}
use aggregator_demo.Entity.{Error}
use aggregator_demo.Storage.{
  Node, file, directory, Dir, no_faults, Entry, ignored, skipped, fresh, entry_of, contents,
  Streamed, stream_lines, stream_file, go_on, stream_entry, stream_entries,
}
use aggregator_demo.Storage.Scan.{Scanned, ends, line, scan}
use aggregator_demo.Storage.Lookup.{is_flow_name}
use aggregator_demo.Storage.Ready.{IsPlain, scan_error, stream_lines-error, entry_of-file}

-- The lines before the end of a scan.
unfoldable pub lines_of : Scanned → List Text
lines_of (ends e) = []
lines_of (line text rest) = text ∷ lines_of rest

unfoldable pub file_lines : Text → List Text
unfolding lines_of scan
file_lines bytes = lines_of (scan bytes none)

unfoldable pub entry_lines : Entry → List Text
unfolding file_lines
entry_lines ignored = []
entry_lines skipped = []
entry_lines (fresh bytes) = file_lines bytes

-- The lines of the entries that the loop reads.
unfoldable pub fresh_lines : Map Text Bool → Dir → List Text
unfolding entry_lines entry_of
fresh_lines skip [] = []
fresh_lines skip ((name, node) ∷ d) = entry_lines (entry_of skip name node) ++ fresh_lines skip d

-- The lines of an entry: those of a flow file that is not counted yet, and no others. This does not
-- depend on what the loop does with the entry.
unfoldable pub node_lines : (Text → Bool) → Text → Node → List Text
unfolding file_lines
node_lines counted name directory = []
node_lines counted name (file bytes) =
    if is_flow_name name && not (counted name) then file_lines bytes else []

-- The lines of all flow files of a directory that are not counted yet.
unfoldable pub flow_lines : (Text → Bool) → Dir → List Text
unfolding node_lines
flow_lines counted [] = []
flow_lines counted ((name, node) ∷ d) = node_lines counted name node ++ flow_lines counted d

-- The loop reads the flow files that are not named in the checkpoint.
pub entry_lines-entry_of :
    (skip : Map Text Bool) (name : Text) (node : Node)
    → entry_lines (entry_of skip name node) ≡ node_lines (λ f. get_or f skip false) name node
unfolding entry_lines entry_of node_lines
entry_lines-entry_of skip name directory = refl
entry_lines-entry_of skip name (file bytes) = elim (Bool-cases (is_flow_name name)) [
  | inl p ↦ elim (Bool-cases (get_or name skip false)) [
    | inl q ↦ rw (p, q) refl
    | inr q ↦ rw (p, q) refl
  ]
  | inr p ↦ rw p refl
]

pub fresh_lines-flow_lines :
    (skip : Map Text Bool) (d : Dir) → fresh_lines skip d ≡ flow_lines (λ f. get_or f skip false) d
unfolding fresh_lines flow_lines
fresh_lines-flow_lines skip [] = refl
fresh_lines-flow_lines skip ((name, node) ∷ d) =
    cc (entry_lines-entry_of skip name node, fresh_lines-flow_lines skip d)

module _ {ℓ} {S : Type ℓ} (on_line : S → Text → S × Option Error)
    (quiet : (s : S) (text : Text) → (on_line s text).1 ≡ none) where
  -- The state behind the calls of the callback with these lines.
  unfoldable pub called : S → List Text → S
  called s [] = s
  called s (text ∷ rest) = called (on_line s text).0 rest

  pub called-append : (s : S) (xs ys : List Text) → called s (xs ++ ys) ≡ called (called s xs) ys
  unfolding called
  called-append s [] ys = refl
  called-append s (x ∷ xs) ys = called-append (on_line s x).0 xs ys

  stream_lines-state :
      (names : List Text) (s : S) (size : ℕ) (x : Scanned)
      → (stream_lines no_faults on_line names s size x).state ≡ called s (lines_of x)
  unfolding stream_lines called lines_of
  stream_lines-state names s size (ends e) = refl
  stream_lines-state names s size (line text rest) =
      rw (quiet s text, stream_lines)
        (stream_lines-state names (on_line s text).0 (size + length text + 1) rest)

  go_on-none :
      (more : S → ℕ → Streamed S) (r : Streamed S) (e : Option Error)
      → e ≡ none
      → go_on no_faults on_line more r e ≡ more r.state r.size
  unfolding go_on
  go_on-none more r none p = refl
  go_on-none more r (some x) p = absurd (cc p)

  module _ (more : List Text → S → ℕ → Streamed S) (rest : List Text)
      (h : (names : List Text) (s : S) (size : ℕ) → (more names s size).state ≡ called s rest) where
    fresh-state :
        (names : List Text) (s : S) (size : ℕ) (name bytes : Text)
        → scan_error (scan bytes none) ≡ none
        → (stream_entry no_faults on_line more names s size name (fresh bytes)).state
          ≡ called s (file_lines bytes ++ rest)
    unfolding stream_entry stream_file contents file_lines
    fresh-state names s size name bytes p =
        let m = names ++ name ∷ [] in
        let r = stream_lines no_faults on_line m s size (scan bytes none) in
        ap (λ (x : Streamed S). x.state)
          (go_on-none (more m) r r.error
            (stream_lines-error on_line quiet m s size (scan bytes none) ∙ p))
        ∙ h m r.state r.size
        ∙ ap (λ x. called x rest) (stream_lines-state m s size (scan bytes none))
        ∙ rw (called-append s (lines_of (scan bytes none)) rest) refl

    entry-state :
        (names : List Text) (s : S) (size : ℕ) (name bytes : Text) (x : Entry)
        → (x ≡ fresh bytes) ⊎ ((x ≡ skipped) ⊎ (x ≡ ignored))
        → scan_error (scan bytes none) ≡ none
        → (stream_entry no_faults on_line more names s size name x).state
          ≡ called s (entry_lines x ++ rest)
    unfolding stream_entry entry_lines
    entry-state names s size name bytes ignored o p = h names s size
    entry-state names s size name bytes skipped o p = h (names ++ name ∷ []) s size
    entry-state names s size name bytes (fresh b) o p =
        let same : b ≡ bytes = ground arith in fresh-state names s size name b (rw same p)

  -- A directory of readable files is read line by line, without the files of the checkpoint.
  pub stream_entries-state :
      (skip : Map Text Bool) (d : Dir) (names : List Text) (s : S) (size : ℕ)
      → All IsPlain d
      → (stream_entries no_faults on_line skip d names s size).state ≡ called s (fresh_lines skip d)
  unfolding stream_entries called fresh_lines
  stream_entries-state skip [] names s size h = refl
  stream_entries-state skip ((name, directory) ∷ d) names s size h =
      unfold entry_of stream_entry entry_lines in stream_entries-state skip d names s size h.1
  stream_entries-state skip ((name, file bytes) ∷ d) names s size h =
      entry-state (stream_entries no_faults on_line skip d) (fresh_lines skip d)
        (λ m t z. stream_entries-state skip d m t z h.1) names s size name bytes
        (entry_of skip name (file bytes)) (entry_of-file on_line quiet skip name bytes) h.0
