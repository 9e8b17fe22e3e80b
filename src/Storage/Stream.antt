-- ===== src/Storage/Stream.antt =====
-- Which files a stream names, and that cleaning leaves no flow file.
use mathlib.Core.Path.{subst}
use aggregator_demo.Base.{
  Bool-cases, inl, inr, sym, ◌≢◌, ℕ, ◌+◌, ◌≡◌, refl, Bool, true, false, Option, none, some, List,
  [], ◌∷◌, ◌++◌, arith, ◌==◌, nat_eq, text_eq, All, All-append, length,
}
use aggregator_demo.Base.Text.{Text, has_infix, starts_with}
use aggregator_demo.Base.Map.{Map, lookup, has}
use aggregator_demo.Entity.{Error, git_keep_name}
use aggregator_demo.Storage.{
  Node, file, directory, Dir, NasDir, Faults, remaining, remaining_tmp, renewed, after_remove_all,
  remove_old, Entry, ignored, skipped, fresh, entry_of, stream_lines, stream_file, go_on,
  stream_entry, stream_entries, stream_tmp, stream_flow, Streamed, contents,
}
use aggregator_demo.Storage.Scan.{Scanned, ends, line}
use aggregator_demo.Storage.Lookup.{tmp_has, is_flow_name}

module _ {ℓ} {S : Type ℓ} (f : Faults) (on_line : S → Text → S × Option Error) where
  names-stream_lines :
      (names : List Text) (r : Scanned) (s : S) (size : ℕ)
      → (stream_lines f on_line names s size r).names ≡ names
  unfolding stream_lines
  names-stream_lines names (ends e) s size = refl
  names-stream_lines names (line text rest) s size =
      ground (arith, names-stream_lines names rest (on_line s text).0 (size + length text + 1))

  names-stream_file :
      (names : List Text) (s : S) (size : ℕ) (name bytes : Text)
      → (stream_file f on_line names s size name bytes).names ≡ names
  unfolding stream_file
  names-stream_file names s size name bytes =
      ground (arith, names-stream_lines names (contents f name bytes) s size)

  All-go_on :
      (P : Text → Type 0) (more : S → ℕ → Streamed S) (r : Streamed S) (e : Option Error)
      → All P r.names
      → ((s : S) (size : ℕ) → All P (more s size).names)
      → All P (go_on f on_line more r e).names
  unfolding go_on
  All-go_on P more r (some e) h k = h
  All-go_on P more r none h k = k r.state r.size

  All-stream_entry :
      (P : Text → Type 0) (more : List Text → S → ℕ → Streamed S) (names : List Text) (s : S)
      (size : ℕ) (name : Text) (x : Entry)
      → ((m : List Text) (t : S) (z : ℕ) → All P m → All P (more m t z).names)
      → (x ≢ ignored → P name)
      → All P names
      → All P (stream_entry f on_line more names s size name x).names
  unfolding stream_entry
  All-stream_entry P more names s size name ignored k p h = k names s size h
  All-stream_entry P more names s size name skipped k p h =
      k (names ++ name ∷ []) s size (All-append P names (name ∷ []) h (p (λ e. cc), tt))
  All-stream_entry P more names s size name (fresh bytes) k p h =
      let named = All-append P names (name ∷ []) h (p (λ e. cc), tt) in
      let r = stream_file f on_line (names ++ name ∷ []) s size name bytes in
      All-go_on P (more (names ++ name ∷ [])) r r.error
        (subst (All P) (sym (names-stream_file (names ++ name ∷ []) s size name bytes)) named)
        (λ t z. k (names ++ name ∷ []) t z named)

  entry_of-flow :
      (skip : Map Text Bool) (name : Text) (node : Node)
      → entry_of skip name node ≢ ignored
      → is_flow_name name ≡ true
  unfolding entry_of
  entry_of-flow skip name directory h = absurd (h refl)
  entry_of-flow skip name (file bytes) h = elim (Bool-cases (is_flow_name name)) [
    | inl e ↦ e
    | inr e ↦ absurd (h (rw e))
  ]

  -- The names are those of flow files of the directory.
  All-stream_entries :
      (P : Text → Type 0) (skip : Map Text Bool) (d : Dir) (names : List Text) (s : S) (size : ℕ)
      → ((j : Text) → has j d ≡ true → is_flow_name j ≡ true → P j)
      → All P names
      → All P (stream_entries f on_line skip d names s size).names
  unfolding stream_entries lookup
  All-stream_entries P skip [] names s size q h = h
  All-stream_entries P skip ((name, node) ∷ d) names s size q h =
      All-stream_entry P (stream_entries f on_line skip d) names s size name
        (entry_of skip name node)
        (λ m t z k. All-stream_entries P skip d m t z (λ j e. q j (ground arith)) k)
        (λ p. q name (ground arith) (entry_of-flow skip name node p)) h

  pub All-stream_tmp :
      (P : Text → Type 0) (fault : Option Error) (skip : Map Text Bool) (s : S) (d : NasDir)
      (t : Option Dir)
      → d.tmp ≡ t
      → ((j : Text) → tmp_has j d ≡ true → is_flow_name j ≡ true → P j)
      → All P (stream_tmp f on_line fault skip s t).names
  unfolding stream_tmp
  All-stream_tmp P (some e) skip s d t q h = tt
  All-stream_tmp P none skip s d none q h = tt
  All-stream_tmp P none skip s d (some t) q h =
      All-stream_entries P skip t [] s 0 (λ j k. h j (ground arith)) tt

  pub All-stream_flow :
      (P : Text → Type 0) (skip : Map Text Bool) (s : S) (d : NasDir)
      → ((j : Text) → tmp_has j d ≡ true → is_flow_name j ≡ true → P j)
      → All P (stream_flow f on_line skip s d).names
  unfolding stream_flow
  All-stream_flow P skip s d h = All-stream_tmp P f.read_tmp skip s d d.tmp refl h

-- Cleaning keeps the directory; a name that is in `tmp` behind it was there, or is no flow file;
-- and if the call succeeds no flow file is left.
pub record Cleaned (d : NasDir) (r : NasDir × Option Error) : Type 0 where
  pub entries : (r.0).entries ≡ d.entries
  pub tmp : (j : Text) → tmp_has j r.0 ≡ true → is_flow_name j ≡ true → tmp_has j d ≡ true
  pub empty : r.1 ≡ none → (j : Text) → is_flow_name j ≡ true → tmp_has j r.0 ≡ false

has-remaining :
    (kept : Text → Bool) (j : Text) (d : Dir) → has j (remaining kept d) ≡ true → has j d ≡ true
unfolding remaining lookup
has-remaining kept j [] h = h
has-remaining kept j ((name, node) ∷ d) h = ground (arith, has-remaining kept j d)

abbrev opt_has : Text → Option Dir → Bool
opt_has name t = elim t [ none ↦ false | some d ↦ has name d ]

has-remaining_tmp :
    (kept : Text → Bool) (j : Text) (t : Option Dir)
    → opt_has j (remaining_tmp kept t) ≡ true
    → opt_has j t ≡ true
unfolding remaining_tmp
has-remaining_tmp kept j none h = h
has-remaining_tmp kept j (some d) h = has-remaining kept j d h

git_keep-not_flow : is_flow_name git_keep_name ≡ false
unfolding has_infix starts_with nat_eq
git_keep-not_flow = refl

keep_only :
    (j : Text) (bytes : Text)
    → is_flow_name j ≡ true
    → has j ((git_keep_name, file bytes) ∷ []) ≡ false
unfolding lookup
keep_only j bytes h = elim (Bool-cases (j == git_keep_name)) [
  | inl e ↦ ground (arith, git_keep-not_flow)
  | inr e ↦ ground arith
]

renewed-Cleaned :
    (d : NasDir) (mkdir write : Option Error) → Cleaned d (renewed mkdir write d.entries)
unfolding renewed
renewed-Cleaned d (some e) write = record { entries = refl; tmp = λ j h k. cc; empty = λ h j k. cc }
renewed-Cleaned d none (some e) = record {
  entries = refl;
  tmp = λ j h k. unfold lookup in cc;
  empty = λ h j k. cc;
}
renewed-Cleaned d none none = record {
  entries = refl;
  tmp = λ j h k. ground (arith, keep_only j [] k);
  empty = λ h j k. keep_only j [] k;
}

after_remove_all-Cleaned :
    (f : Faults) (d : NasDir) (a : Option Error) → Cleaned d (after_remove_all f a d)
unfolding after_remove_all remaining_tmp
after_remove_all-Cleaned f d none = renewed-Cleaned d f.mkdir_tmp f.write_keep
after_remove_all-Cleaned f d (some e) = record {
  entries = refl;
  tmp = λ j h k. has-remaining_tmp f.kept j d.tmp h;
  empty = λ h j k. cc;
}

-- Whatever fails: the entries outside `tmp` are not touched, `tmp` gets no flow file that it did
-- not have, and if the call returns no error `tmp` has no flow file.
pub remove_old-Cleaned : (f : Faults) (d : NasDir) → Cleaned d (remove_old f d)
unfolding remove_old
remove_old-Cleaned f d = after_remove_all-Cleaned f d f.remove_all
