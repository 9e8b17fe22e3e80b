-- ===== src/Flow/Gathered.antt =====
-- `StreamFlow` of the usecase when no call fails: every flow file is moved to `tmp` and read.
use aggregator_demo.Base.{
  ◌≡◌, ◌≢◌, refl, ap, Bool, true, false, Option, none, some, List, [], ◌∷◌, arith, text_eq, All,
  ◌||◌, ◌⊎◌, contains, inl, inr,
}
use aggregator_demo.Base.Text.{Text}
use aggregator_demo.Base.Map.{Map, lookup, NodupKeys, has}
use aggregator_demo.Entity.{Error, ok}
use aggregator_demo.Storage.{
  Node, file, directory, Dir, NasDir, no_faults, file_names, read_file_names_in_flow_dir, Streamed,
  stream_tmp, stream_flow,
}
use aggregator_demo.Storage.Lookup.{is_flow_name, tmp_has, holds}
use aggregator_demo.Storage.Complete.{is_file, tmp_file}
use aggregator_demo.Storage.Ready.{IsPlain, tmp_entries, IsReady, All-lookup, stream_entries-error}
use aggregator_demo.Flow.{move_files, with_error, streamed, by_names, prepare_and_stream}
use aggregator_demo.Flow.Moves.{move_files-keeps}
use aggregator_demo.Flow.Ready.{
  IsMoved, move_files-IsMoved, file_names-AreFiles, contains-file_names,
}

node-cases : (o : Option Node) → (o ≡ none) ⊎ ((o ≡ some directory) ⊎ (is_file o ≡ true))
node-cases none = inl refl
node-cases (some directory) = inr (inl refl)
node-cases (some (file bytes)) = inr (inr refl)

file-holds :
    (j : Text) (d : NasDir)
    → (is_file (lookup j d.entries) || tmp_file j d) ≡ true
    → holds j d ≡ true
file-holds j d h = ground arith

has-tmp_entries :
    (j : Text) (tmp : Option Dir)
    → elim tmp [ none ↦ false | some t ↦ has j t ] ≡ true
    → lookup j (tmp_entries tmp) ≢ none
has-tmp_entries j none h p = cc h
has-tmp_entries j (some t) h p = ground arith

file-tmp_entries :
    (j : Text) (tmp : Option Dir)
    → is_file (lookup j (tmp_entries tmp)) ≡ true
    → elim tmp [ none ↦ false | some t ↦ is_file (lookup j t) ] ≡ true
unfolding lookup
file-tmp_entries j none h = cc h
file-tmp_entries j (some t) h = h

tmp_has-file :
    (j : Text)
    → is_flow_name j ≡ true
    → (d : NasDir) → IsReady d
    → tmp_has j d ≡ true
    → tmp_file j d ≡ true
tmp_has-file j f d ready h = elim (node-cases (lookup j (tmp_entries d.tmp))) [
  | inl p ↦ absurd (has-tmp_entries j d.tmp h p)
  | inr (inl p) ↦ absurd (cc (All-lookup (tmp_entries d.tmp) j directory ready.inside p, f))
  | inr (inr p) ↦ file-tmp_entries j d.tmp p
]

-- The end of `StreamFlow` without an error: no flow file is left in the directory, all of them
-- are in `tmp`.
pub record IsStreamed {ℓ} {S : Type ℓ} (d : NasDir) (r : NasDir × Streamed S) : Type ℓ where
  pub no_error : r.1.error ≡ none
  pub emptied : (j : Text) → is_flow_name j ≡ true → is_file (lookup j r.0.entries) ≡ false
  pub gathered :
      (j : Text)
      → is_flow_name j ≡ true
      → (is_file (lookup j d.entries) || tmp_file j d) ≡ true
      → tmp_file j r.0 ≡ true

module _ {ℓ} {S : Type ℓ} (on_line : S → Text → S × Option Error)
    (quiet : (s : S) (text : Text) → (on_line s text).1 ≡ none) (skip : Map Text Bool) (s : S)
    (d : NasDir) (unique : NodupKeys d.entries) (ready : IsReady d) (new : Text)
    (flow : is_flow_name new ≡ true) (there : is_file (lookup new d.entries) ≡ true) where
  unfoldable pub after : NasDir × Option Error
  after = move_files no_faults (file_names d.entries) d

  pub after-IsMoved : IsMoved (file_names d.entries) d after
  unfolding after
  after-IsMoved =
      move_files-IsMoved (file_names d.entries) d (file_names-AreFiles d.entries unique) ready

  after-held : (j : Text) → holds j d ≡ true → holds j after.0 ≡ true
  unfolding after
  after-held j =
      move_files-keeps (λ x. holds j d ≡ true → holds j x ≡ true) (λ a b m k h. m.held j (k h))
        no_faults (file_names d.entries) d (λ h. h)

  pub after-none : (j : Text) → is_flow_name j ≡ true → lookup j after.0.entries ≡ none
  after-none j f = elim (node-cases (lookup j d.entries)) [
    | inl p ↦ after-IsMoved.absent j p
    | inr (inl p) ↦ absurd (cc (All-lookup d.entries j directory ready.outside p, f))
    | inr (inr p) ↦ after-IsMoved.left j f (contains-file_names j d.entries p)
  ]

  after-tmp_file :
      (j : Text)
      → is_flow_name j ≡ true
      → (is_file (lookup j d.entries) || tmp_file j d) ≡ true
      → tmp_file j after.0 ≡ true
  after-tmp_file j f h =
      tmp_has-file j f after.0 after-IsMoved.ready
        (ground (arith, after-held j (file-holds j d h), after-none j f))

  stream_tmp-error :
      (tmp : Option Dir)
      → All IsPlain (tmp_entries tmp)
      → elim tmp [ none ↦ false | some t ↦ is_file (lookup new t) ] ≡ true
      → (stream_tmp no_faults on_line none skip s tmp).error ≡ none
  unfolding stream_tmp
  stream_tmp-error none h k = absurd (cc k)
  stream_tmp-error (some t) h k = stream_entries-error on_line quiet skip t [] s 0 h

  unfoldable pub after-stream : Streamed S
  after-stream = stream_flow no_faults on_line skip s after.0

  after-stream-error : after-stream.error ≡ none
  unfolding after-stream stream_flow
  after-stream-error =
      stream_tmp-error after.0.tmp after-IsMoved.ready.inside
        (after-tmp_file new flow (ground arith))

  with_error-none :
      (r : Streamed S) (e : Option Error) → e ≡ none → with_error no_faults on_line r e ≡ r
  unfolding with_error
  with_error-none r none p = refl
  with_error-none r (some x) p = absurd (cc p)

  streamed-ok :
      (r : NasDir × Option Error)
      → r.1 ≡ none
      → (stream_flow no_faults on_line skip s r.0).error ≡ none
      → streamed no_faults on_line skip s r ≡ (r.0, stream_flow no_faults on_line skip s r.0)
  unfolding streamed
  streamed-ok (a, some x) p h = absurd (cc p)
  streamed-ok (a, none) p h =
      let r = stream_flow no_faults on_line skip s a in
      ap (λ x. (a, x)) (with_error-none r r.error h)

  contains-cons :
      (names : List Text)
      → contains names new ≡ true
      → (x : Text) × ((xs : List Text) × (names ≡ x ∷ xs))
  contains-cons [] h = absurd (cc h)
  contains-cons (x ∷ xs) h = (x, (xs, refl))

  read-names : read_file_names_in_flow_dir no_faults d ≡ ok (file_names d.entries)
  unfolding read_file_names_in_flow_dir
  read-names =
      let (x, (xs, e)) =
        contains-cons (file_names d.entries) (contains-file_names new d.entries there) in
      rw e refl

  pub prepare_and_stream-after :
      prepare_and_stream no_faults on_line skip s d ≡ (after.0, after-stream)
  unfolding prepare_and_stream by_names after after-stream
  prepare_and_stream-after =
      rw read-names (streamed-ok after after-IsMoved.no_error after-stream-error)

  -- If no call fails and a flow file stands in the directory, every flow file of the directory and
  -- of `tmp` is in `tmp` behind `StreamFlow`, none is left outside, and there is no error. No file
  -- has a line that is too long, and no directory has the name of a flow file.
  pub prepare_and_stream-IsStreamed : IsStreamed d (prepare_and_stream no_faults on_line skip s d)
  prepare_and_stream-IsStreamed = rw prepare_and_stream-after (record {
    no_error = after-stream-error;
    emptied = λ j f. rw (after-none j f) refl;
    gathered = after-tmp_file;
  })
