-- ===== src/Storage/Skip.antt =====
-- Reading with a checkpoint, compared with reading without one.
use mathlib.Core.Path.{subst}
use aggregator_demo.Base.{
  ℕ, ◌+◌, ◌≡◌, refl, sym, ◌⊎◌, inl, inr, Bool, true, false, Option, none, some, List, [], ◌∷◌, ◌++◌,
  Bool-cases, if◌then◌else◌, length, text_eq,
}
use aggregator_demo.Base.Text.{Text, has_infix}
use aggregator_demo.Base.Map.{Map, lookup, get_or}
use aggregator_demo.Entity.{Error, flow_name_sub_str}
use aggregator_demo.Storage.{
  Node, file, directory, Dir, Faults, Entry, ignored, skipped, fresh, entry_of, contents, Streamed,
  stream_lines, stream_file, go_on, stream_entry, stream_entries,
}
use aggregator_demo.Storage.Scan.{Scanned, ends, line}

-- The entries without the names of the checkpoint.
abbrev pub unskipped : Map Text Bool → Dir → Dir
unskipped skip [] = []
unskipped skip ((name, node) ∷ d) =
    if get_or name skip false then unskipped skip d else (name, node) ∷ unskipped skip d

-- What the callback was given leaves the same behind, and the size and the error are the same.
pub record SameRead {ℓ} {S : Type ℓ} (r r' : Streamed S) : Type ℓ where
  pub state : r.state ≡ r'.state
  pub size : r.size ≡ r'.size
  pub error : r.error ≡ r'.error

entry_of-unskipped :
    (skip : Map Text Bool) (name : Text) (node : Node)
    → get_or name skip false ≡ false
    → entry_of skip name node ≡ entry_of [] name node
unfolding entry_of lookup
entry_of-unskipped skip name directory h = refl
entry_of-unskipped skip name (file bytes) h = rw h refl

entry_of-skipped :
    (skip : Map Text Bool) (name : Text) (node : Node)
    → get_or name skip false ≡ true
    → (entry_of skip name node ≡ ignored) ⊎ (entry_of skip name node ≡ skipped)
unfolding entry_of
entry_of-skipped skip name directory h = inl refl
entry_of-skipped skip name (file bytes) h = elim (Bool-cases (has_infix name flow_name_sub_str)) [
  | inl e ↦ inr (rw (e, h) refl)
  | inr e ↦ inl (rw e refl)
]

module _ {ℓ} {S : Type ℓ} (f : Faults) (on_line : S → Text → S × Option Error) where
  lines-step :
      (e : Option Error) (t : S) (z : ℕ) (m m' : List Text) (a a' : Streamed S)
      → SameRead a a'
      → SameRead
          (elim e [ some x ↦ record { state = t; names = m; size = z; error = some x } | none ↦ a ])
          (elim e [
            | some x ↦ record { state = t; names = m'; size = z; error = some x }
            | none ↦ a'
          ])
  lines-step none t z m m' a a' h = h
  lines-step (some x) t z m m' a a' h = record { state = refl; size = refl; error = refl }

  stream_lines-SameRead :
      (m m' : List Text) (r : Scanned) (s : S) (size : ℕ)
      → SameRead (stream_lines f on_line m s size r) (stream_lines f on_line m' s size r)
  unfolding stream_lines
  stream_lines-SameRead m m' (ends e) s size = record { state = refl; size = refl; error = refl }
  stream_lines-SameRead m m' (line text rest) s size =
      let next = on_line s text in
      lines-step next.1 next.0 (size + length text + 1) m m' _ _
        (stream_lines-SameRead m m' rest next.0 (size + length text + 1))

  stream_file-SameRead :
      (m m' : List Text) (s : S) (size : ℕ) (name bytes : Text)
      → SameRead
          (stream_file f on_line m s size name bytes)
          (stream_file f on_line m' s size name bytes)
  unfolding stream_file
  stream_file-SameRead m m' s size name bytes = opened (f.open_file name)
    where
      opened :
          (o : Option Error)
          → SameRead
              (elim o [
                | some e ↦ record { state = s; names = m; size = size; error = some e }
                | none ↦ stream_lines f on_line m s size (contents f name bytes)
              ])
              (elim o [
                | some e ↦ record { state = s; names = m'; size = size; error = some e }
                | none ↦ stream_lines f on_line m' s size (contents f name bytes)
              ])
      opened none = stream_lines-SameRead m m' (contents f name bytes) s size
      opened (some e) = record { state = refl; size = refl; error = refl }

  go_on-SameRead :
      (more more' : S → ℕ → Streamed S) (r r' : Streamed S) (o o' : Option Error)
      → o ≡ o'
      → SameRead r r'
      → ((s : S) (size : ℕ) → SameRead (more s size) (more' s size))
      → SameRead (go_on f on_line more r o) (go_on f on_line more' r' o')
  unfolding go_on
  go_on-SameRead more more' r r' (some e) (some e') q h k = h
  go_on-SameRead more more' r r' none none q h k =
      subst (λ t. SameRead (more r.state r.size) (more' t r'.size)) h.state
        (subst (λ z. SameRead (more r.state r.size) (more' r.state z)) h.size (k r.state r.size))
  go_on-SameRead more more' r r' (some e) none q h k = absurd (cc q)
  go_on-SameRead more more' r r' none (some e) q h k = absurd (cc q)

  stream_entry-SameRead :
      (more more' : List Text → S → ℕ → Streamed S) (m m' : List Text) (s : S) (size : ℕ)
      (name : Text) (x : Entry)
      → ((m m' : List Text) (s : S) (size : ℕ) → SameRead (more m s size) (more' m' s size))
      → SameRead
          (stream_entry f on_line more m s size name x)
          (stream_entry f on_line more' m' s size name x)
  unfolding stream_entry
  stream_entry-SameRead more more' m m' s size name ignored k = k m m' s size
  stream_entry-SameRead more more' m m' s size name skipped k =
      k (m ++ name ∷ []) (m' ++ name ∷ []) s size
  stream_entry-SameRead more more' m m' s size name (fresh bytes) k =
      let h = stream_file-SameRead (m ++ name ∷ []) (m' ++ name ∷ []) s size name bytes in
      go_on-SameRead (more (m ++ name ∷ [])) (more' (m' ++ name ∷ [])) _ _ _ _ h.error h
        (k (m ++ name ∷ []) (m' ++ name ∷ []))

  -- Streaming with a checkpoint gives the callback's state, the size and the error of streaming
  -- without one a directory in which the files of the checkpoint are missing, whatever fails.
  pub stream_entries-SameRead :
      (skip : Map Text Bool) (d : Dir) (m m' : List Text) (s : S) (size : ℕ)
      → SameRead
          (stream_entries f on_line skip d m s size)
          (stream_entries f on_line [] (unskipped skip d) m' s size)
  unfolding stream_entries
  stream_entries-SameRead skip [] m m' s size = record { state = refl; size = refl; error = refl }
  stream_entries-SameRead skip ((name, node) ∷ d) m m' s size =
      let more = stream_entries f on_line skip d in
      let more' = stream_entries f on_line [] (unskipped skip d) in
      elim (Bool-cases (get_or name skip false)) [
        | inl e ↦ rw e (elim (entry_of-skipped skip name node e) [
          | inl p ↦
              subst (λ x. SameRead (stream_entry f on_line more m s size name x) (more' m' s size))
                (sym p) (stream_entries-SameRead skip d m m' s size)
          | inr p ↦
              subst (λ x. SameRead (stream_entry f on_line more m s size name x) (more' m' s size))
                (sym p) (stream_entries-SameRead skip d (m ++ name ∷ []) m' s size)
        ])
        | inr e ↦
            let x = entry_of skip name node in
            rw e (
              subst
                (λ y.
                  SameRead (stream_entry f on_line more m s size name x)
                    (stream_entry f on_line more' m' s size name y))
                (entry_of-unskipped skip name node e)
                (stream_entry-SameRead more more' m m' s size name x
                  (stream_entries-SameRead skip d)))
      ]
