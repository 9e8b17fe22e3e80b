-- ===== src/Flow/Pending.antt =====
-- The lines that a directory has to give, and what moving its files does to them.
use mathlib.Core.List.{Perm, append_assoc}
use mathlib.Core.List.Perm
use aggregator_demo.Base.{
  ◌≡◌, refl, Bool, true, none, some, List, [], ◌∷◌, ◌++◌, arith, text_eq, Bool-cases, inl, inr,
}
use aggregator_demo.Base.Text.{Text}
use aggregator_demo.Base.Map.{Map, lookup, erase, has, NodupKeys, lookup-erase, erase-NodupKeys}
use aggregator_demo.Storage.{file, directory, Dir, NasDir, no_faults, entry_of}
use aggregator_demo.Storage.Lookup.{is_flow_name, lookup-place}
use aggregator_demo.Storage.Ready.{
  IsReady, moved, tmp_entries, move_flow_to_temp_dir-ready, IsReady-moved,
}
use aggregator_demo.Storage.Lines.{entry_lines, fresh_lines}
use aggregator_demo.Storage.Bag.{lines_at, perm_swap, fresh_lines-place, fresh_lines-erase}
use aggregator_demo.Flow.{move_files, move_named}
use aggregator_demo.Flow.Ready.{AreFiles, AreFiles-erase, is_file-bytes, move_named-moved}

-- No flow file stands in the directory and in `tmp`.
abbrev pub IsApart : NasDir → Type 0
IsApart d =
    (f : Text)
    → is_flow_name f ≡ true
    → has f d.entries ≡ true
    → lookup f (tmp_entries d.tmp) ≡ none

-- The lines of all flow files that are not in the checkpoint, in the directory and in `tmp`.
abbrev pub pending : Map Text Bool → NasDir → List Text
pending skip d = fresh_lines skip d.entries ++ fresh_lines skip (tmp_entries d.tmp)

IsApart-moved : (name bytes : Text) (d : NasDir) → IsApart d → IsApart (moved name bytes d)
IsApart-moved name bytes d h f flow k = ground (
  arith,
  h f flow,
  lookup-erase f name d.entries,
  lookup-place f name (file bytes) (tmp_entries d.tmp),
)

module _ (skip : Map Text Bool) where
  pending-moved :
      (name bytes : Text) (d : NasDir)
      → NodupKeys d.entries
      → lookup name d.entries ≡ some (file bytes)
      → lookup name (tmp_entries d.tmp) ≡ none
      → Perm (pending skip (moved name bytes d)) (pending skip d)
  pending-moved name bytes d unique found free =
      let l = lines_at skip name (file bytes) in
      let e = fresh_lines skip (erase name d.entries) in
      let t = fresh_lines skip (tmp_entries d.tmp) in
      Perm.trans
        (Perm.append_left e (fresh_lines-place skip name (file bytes) (tmp_entries d.tmp) free))
        (Perm.trans (perm_swap e l t) (
          rw (← append_assoc l e t) (
            Perm.append_right t (fresh_lines-erase skip name (file bytes) d.entries unique found))))

  -- Moving files without a failure changes only the order of the lines.
  pub move_files-pending :
      (names : List Text) (d : NasDir)
      → AreFiles d.entries names
      → IsReady d
      → NodupKeys d.entries
      → IsApart d
      → Perm (pending skip (move_files no_faults names d).0) (pending skip d)
  unfolding move_files
  move_files-pending [] d h k u a = Perm.refl _
  move_files-pending (name ∷ names) d h k u a = elim (Bool-cases (is_flow_name name)) [
    | inl flow ↦
        let (bytes, found) = is_file-bytes (lookup name d.entries) h.0 in
        let d' = moved name bytes d in
        let rest =
          move_files-pending names d' (AreFiles-erase name d.entries names h.1 h.2)
            (IsReady-moved name bytes d k flow found) (erase-NodupKeys name d.entries u)
            (IsApart-moved name bytes d a) in
        let step =
          move_named-moved (move_files no_faults names) name d d'
            (move_flow_to_temp_dir-ready name bytes d k flow found) in
        rw (flow, step)
          (Perm.trans rest (pending-moved name bytes d u found (a name flow (ground arith))))
    | inr other ↦ rw (other, move_named) (move_files-pending names d h.2 k u a)
  ]

  -- A directory without a flow file gives no line.
  pub fresh_lines-none :
      (d : Dir) → ((j : Text) → is_flow_name j ≡ true → lookup j d ≡ none) → fresh_lines skip d ≡ []
  unfolding fresh_lines entry_lines entry_of lookup
  fresh_lines-none [] h = refl
  fresh_lines-none ((j, directory) ∷ d) h = fresh_lines-none d (λ i flow. ground (arith, h i flow))
  fresh_lines-none ((j, file bytes) ∷ d) h = elim (Bool-cases (is_flow_name j)) [
    | inl flow ↦ absurd (ground (arith, h j flow))
    | inr other ↦ rw other (fresh_lines-none d (λ i flow. ground (arith, h i flow)))
  ]
