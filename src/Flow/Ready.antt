-- ===== src/Flow/Ready.antt =====
-- The loop of `StreamFlow` that moves files, when no call fails.
use aggregator_demo.Base.{
  ◌≡◌, refl, ap, true, false, Option, none, some, List, [], ◌∷◌, arith, text_eq, contains,
  Bool-cases, inl, inr,
}
use aggregator_demo.Base.Text.{Text}
use aggregator_demo.Base.Map.{lookup, erase, lookup-erase, NodupKeys}
use aggregator_demo.Entity.{Error}
use aggregator_demo.Storage.{
  Node, file, directory, Dir, NasDir, no_faults, file_names, move_flow_to_temp_dir,
}
use aggregator_demo.Storage.Lookup.{is_flow_name}
use aggregator_demo.Storage.Complete.{is_file}
use aggregator_demo.Storage.Ready.{IsReady, moved, move_flow_to_temp_dir-ready, IsReady-moved}
use aggregator_demo.Flow.{after_move, move_named, move_files}

-- Each name is that of a file, and none stands twice.
abbrev pub AreFiles : Dir → List Text → Type 0
AreFiles d [] = Unit
AreFiles d (name ∷ names) =
    (is_file (lookup name d) ≡ true) × (contains names name ≡ false) × AreFiles d names

pub AreFiles-erase :
    (name : Text) (d : Dir) (names : List Text)
    → contains names name ≡ false
    → AreFiles d names
    → AreFiles (erase name d) names
AreFiles-erase name d [] h k = tt
AreFiles-erase name d (j ∷ names) h k =
    (ground (arith, lookup-erase j name d), k.1, AreFiles-erase name d names (ground arith) k.2)

AreFiles-cons :
    (name : Text) (node : Node) (d : Dir) (names : List Text)
    → contains names name ≡ false
    → AreFiles d names
    → AreFiles ((name, node) ∷ d) names
unfolding lookup
AreFiles-cons name node d [] h k = tt
AreFiles-cons name node d (j ∷ names) h k =
    (ground arith, k.1, AreFiles-cons name node d names (ground arith) k.2)

not-contains-file_names :
    (j : Text) (d : Dir) → lookup j d ≡ none → contains (file_names d) j ≡ false
unfolding file_names lookup
not-contains-file_names j [] h = refl
not-contains-file_names j ((name, directory) ∷ d) h = ground (arith, not-contains-file_names j d)
not-contains-file_names j ((name, file bytes) ∷ d) h = ground (arith, not-contains-file_names j d)

pub file_names-AreFiles : (d : Dir) → NodupKeys d → AreFiles d (file_names d)
unfolding file_names lookup
file_names-AreFiles [] u = tt
file_names-AreFiles ((name, directory) ∷ d) u =
    AreFiles-cons name directory d (file_names d) (not-contains-file_names name d u.0)
      (file_names-AreFiles d u.1)
file_names-AreFiles ((name, file bytes) ∷ d) u =
    let fresh = not-contains-file_names name d u.0 in
    (
      ground arith,
      fresh,
      AreFiles-cons name (file bytes) d (file_names d) fresh (file_names-AreFiles d u.1),
    )

pub is_file-bytes : (o : Option Node) → is_file o ≡ true → (bytes : Text) × (o ≡ some (file bytes))
is_file-bytes none h = absurd (cc h)
is_file-bytes (some directory) h = absurd (cc h)
is_file-bytes (some (file bytes)) h = (bytes, refl)

-- No error, a directory that is ready again, none of the names left if it is that of a flow file,
-- and no entry that was not there.
pub record IsMoved (names : List Text) (d : NasDir) (r : NasDir × Option Error) : Type 0 where
  pub no_error : r.1 ≡ none
  pub ready : IsReady r.0
  pub left :
      (j : Text) → is_flow_name j ≡ true → contains names j ≡ true → lookup j r.0.entries ≡ none
  pub absent : (j : Text) → lookup j d.entries ≡ none → lookup j r.0.entries ≡ none

pub move_named-moved :
    (more : NasDir → NasDir × Option Error) (name : Text) (d d' : NasDir)
    → move_flow_to_temp_dir no_faults name d ≡ (d', none)
    → move_named more no_faults name d true ≡ more d'
unfolding move_named after_move
move_named-moved more name d d' h = ap (after_move more) h

pub move_files-IsMoved :
    (names : List Text) (d : NasDir)
    → AreFiles d.entries names
    → IsReady d
    → IsMoved names d (move_files no_faults names d)
unfolding move_files
move_files-IsMoved [] d h k = record {
  no_error = refl;
  ready = k;
  left = λ j f c. absurd (cc c);
  absent = λ j p. p;
}
move_files-IsMoved (name ∷ names) d h k = elim (Bool-cases (is_flow_name name)) [
  | inl flow ↦
      let (bytes, found) = is_file-bytes (lookup name d.entries) h.0 in
      let d' = moved name bytes d in
      let rest =
        move_files-IsMoved names d' (AreFiles-erase name d.entries names h.1 h.2)
          (IsReady-moved name bytes d k flow found) in
      let step =
        move_named-moved (move_files no_faults names) name d d'
          (move_flow_to_temp_dir-ready name bytes d k flow found) in
      rw (flow, step)
        (record {
          no_error = rest.no_error;
          ready = rest.ready;
          left = λ j f c. elim (text_eq.dec j name) [
            | yes p ↦ rest.absent j (ground (arith, lookup-erase j name d.entries))
            | no p ↦ rest.left j f (ground arith)
          ];
          absent = λ j p. rest.absent j (ground (arith, lookup-erase j name d.entries));
        })
  | inr other ↦
      let rest = move_files-IsMoved names d h.2 k in
      rw (other, move_named)
        (record {
          no_error = rest.no_error;
          ready = rest.ready;
          left = λ j f c. rest.left j f (ground arith);
          absent = rest.absent;
        })
]

pub contains-file_names :
    (j : Text) (d : Dir) → is_file (lookup j d) ≡ true → contains (file_names d) j ≡ true
unfolding file_names lookup
contains-file_names j [] h = absurd (cc h)
contains-file_names j ((name, directory) ∷ d) h = ground (arith, contains-file_names j d)
contains-file_names j ((name, file bytes) ∷ d) h = ground (arith, contains-file_names j d)
