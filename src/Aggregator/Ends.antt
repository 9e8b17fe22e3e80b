-- ===== src/Aggregator/Ends.antt =====
-- How a run of `Aggregate` ends in which no call fails, and the last stages of such a run.
use aggregator_demo.Base.{
  ◌≡◌, refl, ap, ◌∙◌, ◌||◌, Bool, true, false, Option, none, some, List, [], ◌∷◌, ◌++◌, length,
  text_eq,
}
use aggregator_demo.Base.Text.{Text}
use aggregator_demo.Base.Map.{lookup}
use aggregator_demo.Entity.{Error, no_data, git_keep_name, Chunk, Outcome, done}
use aggregator_demo.Metrics.{
  NasResult, success, no_new, no_internal, unrecognized, failure, Event, inc_nas, add_chunks_saved,
}
use aggregator_demo.Database.{Db}
use aggregator_demo.Storage.{NasDir, file}
use aggregator_demo.Storage.Lookup.{is_flow_name}
use aggregator_demo.Storage.Complete.{is_file, tmp_file}
use aggregator_demo.Aggregator.Save.{save_chunk_list_with_checkpoint}
use aggregator_demo.Aggregator.Stages.{
  State, record_event, clean, account_traffic, charged, and_charged, after_commit, commit_chunks,
}
use aggregator_demo.Aggregator.Chunks.{clean-chunk}
use aggregator_demo.Aggregator.Healthy.{healthy, rows_at, save-ok, clean-dir, clean-rows}

-- Nothing is left to do: `tmp` holds its service file alone, the directory has no flow file, and
-- the checkpoint has no row of the directory.
pub record IsSettled (nas_ip : Text) (d : NasDir) (db : Db) : Type 0 where
  pub empty : d.tmp ≡ some ((git_keep_name, file []) ∷ [])
  pub emptied : (j : Text) → is_flow_name j ≡ true → is_file (lookup j d.entries) ≡ false
  pub unmarked : rows_at nas_ip db ≡ []

-- Each flow file waits in `tmp`, and the database is as it was.
pub record IsKept (s t : State) : Type 0 where
  pub gathered :
      (j : Text)
      → is_flow_name j ≡ true
      → (is_file (lookup j s.dir.entries) || tmp_file j s.dir) ≡ true
      → tmp_file j t.dir ≡ true
  pub same : t.db ≡ s.db

-- How a run ends, by the outcome that it records last.
abbrev pub Ends : Text → List Chunk → State → State → NasResult → Type 0
Ends nas_ip chunks s t success = IsSettled nas_ip t.dir t.db × (t.db.chunk ≡ s.db.chunk ++ chunks)
Ends nas_ip chunks s t unrecognized = IsKept s t
Ends nas_ip chunks s t no_new = IsSettled nas_ip t.dir t.db × (t.db.chunk ≡ s.db.chunk)
Ends nas_ip chunks s t no_internal = IsSettled nas_ip t.dir t.db × (t.db.chunk ≡ s.db.chunk)
Ends nas_ip chunks s t failure = IsSettled nas_ip t.dir t.db × (t.db.chunk ≡ s.db.chunk)

-- The outcome, by whether there is a file that is not in the checkpoint, the error of `Result`, and
-- the chunks.
abbrev pub outcome_of : Bool → Option Error → List Chunk → NasResult
outcome_of false verdict chunks = no_new
outcome_of true (some no_data) chunks = no_internal
outcome_of true (some x) chunks = unrecognized
outcome_of true none [] = failure
outcome_of true none (c ∷ chunks) = success

pub record Settles (nas_ip : Text) (outcome : NasResult) (chunks : List Chunk) (s : State)
    (r : State × Outcome (Unit {0})) : Type 0 where
  pub returns : r.1 ≡ done tt
  pub before : List Event
  pub recorded : r.0.events ≡ inc_nas outcome ∷ before
  pub ends : Ends nas_ip chunks s r.0 outcome

module _ (nas_ip : Text) (chunks : List Chunk) (from : State) where
  -- The directory and the database that the stages behind the stream work on.
  pub record Gathered (s : State) : Type 0 where
    pub emptied : (j : Text) → is_flow_name j ≡ true → is_file (lookup j s.dir.entries) ≡ false
    pub gathered :
        (j : Text)
        → is_flow_name j ≡ true
        → (is_file (lookup j from.dir.entries) || tmp_file j from.dir) ≡ true
        → tmp_file j s.dir ≡ true
    pub same : s.db ≡ from.db

  pub clean-IsSettled :
      (s : State)
      → ((j : Text) → is_flow_name j ≡ true → is_file (lookup j s.dir.entries) ≡ false)
      → IsSettled nas_ip (clean healthy nas_ip s).dir (clean healthy nas_ip s).db
  clean-IsSettled s h = record {
    empty = ap (λ (d : NasDir). d.tmp) (clean-dir nas_ip s);
    emptied = λ j f. rw (clean-dir nas_ip s) (h j f);
    unmarked = clean-rows nas_ip s;
  }

  pub clean-same :
      (s : State)
      → Gathered s
      → IsSettled nas_ip (clean healthy nas_ip s).dir (clean healthy nas_ip s).db
        × ((clean healthy nas_ip s).db.chunk ≡ from.db.chunk)
  clean-same s g =
      (clean-IsSettled s g.emptied, clean-chunk healthy nas_ip s ∙ ap (λ (d : Db). d.chunk) g.same)

  pub account_traffic-healthy :
      (s : State)
      → (t : State) × ((account_traffic healthy nas_ip chunks s ≡ (t, done tt))
          × (t.dir ≡ s.dir)
          × (t.db ≡ s.db))
  unfolding account_traffic and_charged charged
  account_traffic-healthy s = (_, (refl, refl, refl))

  after_commit-Settles :
      (s : State) (r : Db × Option Error)
      → Gathered s
      → r.1 ≡ none
      → r.0.chunk ≡ s.db.chunk ++ chunks
      → Settles nas_ip success chunks from (after_commit healthy nas_ip chunks s r, done tt)
  unfolding after_commit clean
  after_commit-Settles s (db, some x) g h k = absurd (cc h)
  after_commit-Settles s (db, none) g h k =
      let t : State =
        record_event (inc_nas success)
          (record_event (add_chunks_saved (length chunks)) (record s { db = db })) in
      record {
        returns = refl;
        before = add_chunks_saved (length chunks) ∷ s.events;
        recorded = refl;
        ends = (
          clean-IsSettled t g.emptied,
          clean-chunk healthy nas_ip t ∙ k ∙ ap (λ (d : Db). d.chunk ++ chunks) g.same,
        );
      }

  pub commit_chunks-Settles :
      (names : List Text) (s : State)
      → Gathered s
      → Settles nas_ip success chunks from (commit_chunks healthy nas_ip chunks names s, done tt)
  unfolding commit_chunks
  commit_chunks-Settles names s g =
      let r = save_chunk_list_with_checkpoint healthy nas_ip chunks names s.db in
      let saved = save-ok nas_ip chunks names s.db in after_commit-Settles s r g saved.0 saved.1
