-- ===== src/Storage/Complete.antt =====
-- A stream of `tmp` that ends without an error has named every flow file.
use aggregator_demo.Base.{
  ◌≡◌, ◌≢◌, refl, ℕ, Bool, true, false, Option, none, some, List, [], ◌∷◌, ◌++◌, arith, text_eq,
  contains, contains-append,
}
use aggregator_demo.Base.Text.{Text}
use aggregator_demo.Base.Map.{Map, lookup}
use aggregator_demo.Entity.{Error}
use aggregator_demo.Storage.{
  Node, file, directory, Dir, NasDir, Faults, Entry, ignored, skipped, fresh, entry_of, stream_file,
  go_on, stream_entry, stream_entries, stream_tmp, stream_flow, Streamed,
}
use aggregator_demo.Storage.Lookup.{is_flow_name}

abbrev pub is_file : Option Node → Bool
is_file none = false
is_file (some directory) = false
is_file (some (file bytes)) = true

-- `tmp` has a regular file of that name.
abbrev pub tmp_file : Text → NasDir → Bool
tmp_file name d = elim d.tmp [ none ↦ false | some t ↦ is_file (lookup name t) ]

module _ {ℓ} {S : Type ℓ} (f : Faults) (on_line : S → Text → S × Option Error) (j : Text) where
  -- The name is among those returned, unless there is an error.
  abbrev pub Names : Streamed S → Type 0
  Names r = r.error ≡ none → contains r.names j ≡ true

  go_on-Names :
      (more : S → ℕ → Streamed S) (r : Streamed S) (e : Option Error)
      → r.error ≡ e
      → ((s : S) (size : ℕ) → Names (more s size))
      → Names (go_on f on_line more r e)
  unfolding go_on
  go_on-Names more r (some e) p k h = absurd (cc (p, h))
  go_on-Names more r none p k h = k r.state r.size h

  module _ (more : List Text → S → ℕ → Streamed S)
      (keep : (names : List Text) (s : S) (size : ℕ)
        → contains names j ≡ true
        → Names (more names s size)) where
    stream_entry-keeps :
        (names : List Text) (s : S) (size : ℕ) (name : Text) (x : Entry)
        → contains names j ≡ true
        → Names (stream_entry f on_line more names s size name x)
    unfolding stream_entry
    stream_entry-keeps names s size name ignored h = keep names s size h
    stream_entry-keeps names s size name skipped h =
        keep (names ++ name ∷ []) s size (ground (arith, contains-append names (name ∷ []) j))
    stream_entry-keeps names s size name (fresh bytes) h =
        let r = stream_file f on_line (names ++ name ∷ []) s size name bytes in
        go_on-Names (more (names ++ name ∷ [])) r r.error refl (λ t z.
          keep (names ++ name ∷ []) t z (ground (arith, contains-append names (name ∷ []) j)))

    stream_entry-adds :
        (names : List Text) (s : S) (size : ℕ) (name : Text) (x : Entry)
        → x ≢ ignored
        → j ≡ name
        → Names (stream_entry f on_line more names s size name x)
    unfolding stream_entry
    stream_entry-adds names s size name ignored p h = absurd (p refl)
    stream_entry-adds names s size name skipped p h =
        keep (names ++ name ∷ []) s size (ground (arith, contains-append names (name ∷ []) j))
    stream_entry-adds names s size name (fresh bytes) p h =
        let r = stream_file f on_line (names ++ name ∷ []) s size name bytes in
        go_on-Names (more (names ++ name ∷ [])) r r.error refl (λ t z.
          keep (names ++ name ∷ []) t z (ground (arith, contains-append names (name ∷ []) j)))

  module _ (skip : Map Text Bool) where
    stream_entries-keeps :
        (d : Dir) (names : List Text) (s : S) (size : ℕ)
        → contains names j ≡ true
        → Names (stream_entries f on_line skip d names s size)
    unfolding stream_entries
    stream_entries-keeps [] names s size h = λ k. h
    stream_entries-keeps ((name, node) ∷ d) names s size h =
        stream_entry-keeps (stream_entries f on_line skip d) (stream_entries-keeps d) names s size
          name (entry_of skip name node) h

    entry_of-counts :
        (name : Text) (node : Node)
        → is_flow_name name ≡ true
        → is_file (some node) ≡ true
        → entry_of skip name node ≢ ignored
    unfolding entry_of
    entry_of-counts name directory h k p = absurd (cc k)
    entry_of-counts name (file bytes) h k p = ground arith

    stream_entry-passes :
        (more : List Text → S → ℕ → Streamed S) (names : List Text) (s : S) (size : ℕ) (name : Text)
        (x : Entry)
        → ((m : List Text) (t : S) (z : ℕ) → Names (more m t z))
        → Names (stream_entry f on_line more names s size name x)
    unfolding stream_entry
    stream_entry-passes more names s size name ignored k = k names s size
    stream_entry-passes more names s size name skipped k = k (names ++ name ∷ []) s size
    stream_entry-passes more names s size name (fresh bytes) k =
        let r = stream_file f on_line (names ++ name ∷ []) s size name bytes in
        go_on-Names (more (names ++ name ∷ [])) r r.error refl (k (names ++ name ∷ []))

    pub stream_entries-Names :
        (d : Dir) (names : List Text) (s : S) (size : ℕ)
        → is_flow_name j ≡ true
        → is_file (lookup j d) ≡ true
        → Names (stream_entries f on_line skip d names s size)
    unfolding stream_entries lookup
    stream_entries-Names [] names s size h k = absurd (cc k)
    stream_entries-Names ((name, node) ∷ d) names s size h k = elim (text_eq.dec j name) [
      | yes p ↦
          stream_entry-adds (stream_entries f on_line skip d) (stream_entries-keeps d) names s size
            name (entry_of skip name node) (entry_of-counts name node (ground arith) (ground arith))
            p
      | no p ↦
          stream_entry-passes (stream_entries f on_line skip d) names s size name
            (entry_of skip name node) (λ m t z. stream_entries-Names d m t z h (ground arith))
    ]

    stream_tmp-Names :
        (fault : Option Error) (s : S) (t : Option Dir)
        → is_flow_name j ≡ true
        → elim t [ none ↦ false | some x ↦ is_file (lookup j x) ] ≡ true
        → Names (stream_tmp f on_line fault skip s t)
    unfolding stream_tmp
    stream_tmp-Names (some e) s t h k = λ p. absurd (cc p)
    stream_tmp-Names none s none h k = absurd (cc k)
    stream_tmp-Names none s (some t) h k = stream_entries-Names t [] s 0 h k

    pub stream_flow-Names :
        (s : S) (d : NasDir)
        → is_flow_name j ≡ true
        → tmp_file j d ≡ true
        → Names (stream_flow f on_line skip s d)
    unfolding stream_flow
    stream_flow-Names s d h k = stream_tmp-Names f.read_tmp s d.tmp h k
