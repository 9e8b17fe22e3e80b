-- ===== src/Storage/Ready.antt =====
-- The file repository when no call fails: files are moved, and a directory of readable files is
-- streamed to its end.
use aggregator_demo.Base.{
  ◌≡◌, ◌≢◌, ◌∙◌, ◌⊎◌, refl, ℕ, ◌+◌, Bool, true, false, Option, none, some, List, [], ◌∷◌, ◌++◌,
  arith, text_eq, All, length, Bool-cases, inl, inr,
}
use aggregator_demo.Base.Text.{Text, has_infix}
use aggregator_demo.Base.Map.{Map, lookup, erase, get_or}
use aggregator_demo.Entity.{Error, flow_name_sub_str}
use aggregator_demo.Storage.{
  Node, file, directory, Dir, NasDir, no_faults, place, Entry, ignored, skipped, fresh, entry_of,
  contents, make_tmp, rename_node, rename_into, after_mkdir, move_flow_to_temp_dir, Streamed,
  stream_lines, stream_file, go_on, stream_entry, stream_entries,
}
use aggregator_demo.Storage.Scan.{Scanned, ends, line, scan}
use aggregator_demo.Storage.Lookup.{is_flow_name}

-- What `Err` of the scanner gives behind all lines.
unfoldable pub scan_error : Scanned → Option Error
scan_error (ends e) = e
scan_error (line text rest) = scan_error rest

-- A file without a line that is too long; a directory does not have the name of a flow file.
abbrev pub IsPlain : Text × Node → Type 0
IsPlain (name, file bytes) = scan_error (scan bytes none) ≡ none
IsPlain (name, directory) = is_flow_name name ≡ false

-- The entries of `tmp`, of which there are none before it is made.
abbrev pub tmp_entries : Option Dir → Dir
tmp_entries none = []
tmp_entries (some t) = t

pub record IsReady (d : NasDir) : Type 0 where
  pub outside : All IsPlain d.entries
  pub inside : All IsPlain (tmp_entries d.tmp)

pub All-lookup :
    (d : Dir) (j : Text) (node : Node) → All IsPlain d → lookup j d ≡ some node → IsPlain (j, node)
unfolding lookup
All-lookup [] j node h k = absurd (cc k)
All-lookup ((name, other) ∷ d) j node h k = elim (text_eq.dec j name) [
  | yes p ↦ ground arith
  | no p ↦ All-lookup d j node h.1 (ground arith)
]

All-place :
    (name : Text) (node : Node) (d : Dir)
    → IsPlain (name, node)
    → All IsPlain d
    → All IsPlain (place name node d)
unfolding place
All-place name node [] p h = (p, tt)
All-place name node ((j, other) ∷ d) p h = ground (arith, All-place name node d p h.1)

All-erase : (name : Text) (d : Dir) → All IsPlain d → All IsPlain (erase name d)
unfolding erase
All-erase name [] h = tt
All-erase name ((j, other) ∷ d) h = ground (arith, All-erase name d h.1)

make_tmp-ready :
    (entries : Dir) (tmp : Option Dir)
    → make_tmp none entries tmp ≡ (record { entries = entries; tmp = some (tmp_entries tmp) }, none)
unfolding make_tmp
make_tmp-ready entries none = refl
make_tmp-ready entries (some t) = refl

rename_node-ready :
    (d : NasDir) (name : Text) (t : Dir) (bytes : Text) (there : Option Node)
    → there ≢ some directory
    → rename_node d name t (some (file bytes)) there
      ≡ (record { entries = erase name d.entries; tmp = some (place name (file bytes) t) }, none)
unfolding rename_node
rename_node-ready d name t bytes none h = refl
rename_node-ready d name t bytes (some (file b)) h = refl
rename_node-ready d name t bytes (some directory) h = absurd (h refl)

-- What a move leaves when nothing fails.
abbrev pub moved : Text → Text → NasDir → NasDir
moved name bytes d = record {
  entries = erase name d.entries;
  tmp = some (place name (file bytes) (tmp_entries d.tmp));
}

module _ (name bytes : Text) (d : NasDir) (ready : IsReady d) (flow : is_flow_name name ≡ true)
    (found : lookup name d.entries ≡ some (file bytes)) where
  free : lookup name (tmp_entries d.tmp) ≢ some directory
  free h = cc (All-lookup (tmp_entries d.tmp) name directory ready.inside h, flow)

  -- A file of the directory is moved.
  pub move_flow_to_temp_dir-ready :
      move_flow_to_temp_dir no_faults name d ≡ (moved name bytes d, none)
  unfolding move_flow_to_temp_dir after_mkdir rename_into
  move_flow_to_temp_dir-ready =
      rw (make_tmp-ready d.entries d.tmp, found)
        (rename_node-ready (record { entries = d.entries; tmp = some (tmp_entries d.tmp) }) name
          (tmp_entries d.tmp) bytes (lookup name (tmp_entries d.tmp)) free)

  pub IsReady-moved : IsReady (moved name bytes d)
  IsReady-moved = record {
    outside = All-erase name d.entries ready.outside;
    inside =
        All-place name (file bytes) (tmp_entries d.tmp)
          (All-lookup d.entries name (file bytes) ready.outside found) ready.inside;
  }

module _ {ℓ} {S : Type ℓ} (on_line : S → Text → S × Option Error)
    (quiet : (s : S) (text : Text) → (on_line s text).1 ≡ none) where
  pub stream_lines-error :
      (names : List Text) (s : S) (size : ℕ) (x : Scanned)
      → (stream_lines no_faults on_line names s size x).error ≡ scan_error x
  unfolding stream_lines scan_error
  stream_lines-error names s size (ends e) = refl
  stream_lines-error names s size (line text rest) =
      rw (quiet s text, stream_lines)
        (stream_lines-error names (on_line s text).0 (size + length text + 1) rest)

  go_on-error :
      (more : S → ℕ → Streamed S) (r : Streamed S) (e : Option Error)
      → e ≡ none
      → ((s : S) (size : ℕ) → (more s size).error ≡ none)
      → (go_on no_faults on_line more r e).error ≡ none
  unfolding go_on
  go_on-error more r none p h = h r.state r.size
  go_on-error more r (some x) p h = absurd (cc p)

  stream_entry-error :
      (skip : Map Text Bool) (more : List Text → S → ℕ → Streamed S) (names : List Text) (s : S)
      (size : ℕ) (name bytes : Text) (x : Entry)
      → (x ≡ fresh bytes) ⊎ ((x ≡ skipped) ⊎ (x ≡ ignored))
      → scan_error (scan bytes none) ≡ none
      → ((names : List Text) (s : S) (size : ℕ) → (more names s size).error ≡ none)
      → (stream_entry no_faults on_line more names s size name x).error ≡ none
  unfolding stream_entry stream_file contents
  stream_entry-error skip more names s size name bytes ignored o p h = h names s size
  stream_entry-error skip more names s size name bytes skipped o p h = h (names ++ name ∷ []) s size
  stream_entry-error skip more names s size name bytes (fresh b) o p h =
      let same : b ≡ bytes = ground arith in
      let r = stream_lines no_faults on_line (names ++ name ∷ []) s size (scan b none) in
      go_on-error (more (names ++ name ∷ [])) r r.error
        (stream_lines-error (names ++ name ∷ []) s size (scan b none) ∙ rw same p)
        (h (names ++ name ∷ []))

  pub entry_of-file :
      (skip : Map Text Bool) (name bytes : Text)
      → let x = entry_of skip name (file bytes) in
        (x ≡ fresh bytes) ⊎ ((x ≡ skipped) ⊎ (x ≡ ignored))
  unfolding entry_of
  entry_of-file skip name bytes = elim (Bool-cases (has_infix name flow_name_sub_str)) [
    | inl e ↦ elim (Bool-cases (get_or name skip false)) [
      | inl k ↦ inr (inl (rw (e, k) refl))
      | inr k ↦ inl (rw (e, k) refl)
    ]
    | inr e ↦ inr (inr (rw e refl))
  ]

  -- Files without a line that is too long are streamed to the end.
  pub stream_entries-error :
      (skip : Map Text Bool) (d : Dir) (names : List Text) (s : S) (size : ℕ)
      → All IsPlain d
      → (stream_entries no_faults on_line skip d names s size).error ≡ none
  unfolding stream_entries
  stream_entries-error skip [] names s size h = refl
  stream_entries-error skip ((name, directory) ∷ d) names s size h =
      unfold entry_of stream_entry in stream_entries-error skip d names s size h.1
  stream_entries-error skip ((name, file bytes) ∷ d) names s size h =
      stream_entry-error skip (stream_entries no_faults on_line skip d) names s size name bytes
        (entry_of skip name (file bytes)) (entry_of-file skip name bytes) h.0
        (λ m t z. stream_entries-error skip d m t z h.1)
