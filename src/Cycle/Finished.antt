-- ===== src/Cycle/Finished.antt =====
-- When a cycle has finished a directory: told by the lines of its files, as they were before it.
use mathlib.Core.List.{append_assoc, append-nil}
use aggregator_demo.Base.{◌≡◌, sym, ap, ◌∙◌, ◌||◌, true, false, List, [], ◌++◌, text_eq}
use aggregator_demo.Base.Text.{Text}
use aggregator_demo.Base.Map.{lookup, get_or}
use aggregator_demo.Entity.{OnlineSession, Chunk}
use aggregator_demo.Traffic.{Net, ChannelMap}
use aggregator_demo.Traffic.Verdict.{verdict}
use aggregator_demo.Metrics.{NasResult, success, no_new, no_internal, unrecognized, failure}
use aggregator_demo.Database.{Db, name_set, row_eq}
use aggregator_demo.Storage.{NasDir}
use aggregator_demo.Storage.Lookup.{is_flow_name}
use aggregator_demo.Storage.Complete.{is_file, tmp_file}
use aggregator_demo.Storage.Lines.{flow_lines}
use aggregator_demo.Storage.Ready.{tmp_entries}
use aggregator_demo.Aggregator.Stages.{State}
use aggregator_demo.Aggregator.Worlds.{World}
use aggregator_demo.Aggregator.Healthy.{rows_at}
use aggregator_demo.Aggregator.Loaded.{name_set-from}
use aggregator_demo.Aggregator.Ends.{IsSettled, Ends, outcome_of}
use aggregator_demo.Aggregator.Credits.{AreCredits, is_marked, uncounted}
use aggregator_demo.Cycle.Others.{IsSame}

-- Every flow file of the first directory waits in `tmp` of the second.
abbrev pub Waits : NasDir → NasDir → Type 0
Waits d d' =
    (j : Text)
    → is_flow_name j ≡ true
    → (is_file (lookup j d.entries) || tmp_file j d) ≡ true
    → tmp_file j d' ≡ true

-- Among the chunks that a table has more than another are these, in one piece.
pub record IsSaved (chunks : List Chunk) (db db' : Db) : Type 0 where
  pub earlier : List Chunk
  pub later : List Chunk
  pub table : db'.chunk ≡ (db.chunk ++ earlier) ++ (chunks ++ later)

-- What a cycle that began with the first world leaves in the second, by the outcome for the directory.
abbrev pub FinishedAs : Text → List Chunk → World → World → NasResult → Type 0
FinishedAs nas chunks w w' success = IsSettled nas (w'.dirs nas) w'.db × IsSaved chunks w.db w'.db
FinishedAs nas chunks w w' unrecognized =
    Waits (w.dirs nas) (w'.dirs nas) × (rows_at nas w'.db ≡ rows_at nas w.db)
FinishedAs nas chunks w w' no_new = IsSettled nas (w'.dirs nas) w'.db
FinishedAs nas chunks w w' no_internal = IsSettled nas (w'.dirs nas) w'.db
FinishedAs nas chunks w w' failure = IsSettled nas (w'.dirs nas) w'.db

-- The state that a worker of the directory finds in a world.
abbrev pub state_in : Text → World → State
state_in nas w = record { dir = w.dirs nas; db = w.db; events = [] }

-- The outcome is the one that the uncounted lines of the first world call for, and the chunks have
-- what these lines credit.
pub record Finished (nas : Text) (n : Net) (channel_map : ChannelMap)
    (sessions : List OnlineSession) (w w' : World) : Type 0 where
  pub chunks : List Chunk
  pub credits : AreCredits n channel_map (uncounted nas (state_in nas w)) sessions chunks
  pub ends :
      FinishedAs nas chunks w w'
        (outcome_of true (verdict n (uncounted nas (state_in nas w))) chunks)

module _ (nas : Text) where
  IsSettled-IsSame :
      (w w' : World)
      → IsSame nas w w'
      → IsSettled nas (w.dirs nas) w.db
      → IsSettled nas (w'.dirs nas) w'.db
  IsSettled-IsSame w w' s h = record {
    empty = ap (λ (x : NasDir). x.tmp) s.dir ∙ h.empty;
    emptied = λ j f. rw s.dir (h.emptied j f);
    unmarked = s.rows ∙ h.unmarked;
  }

  -- What the other workers do behind it leaves it finished.
  FinishedAs-IsSame :
      (chunks : List Chunk) (w v v' : World) (x : NasResult)
      → IsSame nas v v'
      → FinishedAs nas chunks w v x
      → FinishedAs nas chunks w v' x
  FinishedAs-IsSame chunks w v v' success s (h, k) = (
    IsSettled-IsSame v v' s h,
    record {
      earlier = k.earlier;
      later = k.later ++ s.grows.more;
      table =
          s.grows.appended
          ∙ ap (λ x. x ++ s.grows.more) k.table
          ∙ append_assoc (w.db.chunk ++ k.earlier) (chunks ++ k.later) s.grows.more
          ∙ ap (λ x. (w.db.chunk ++ k.earlier) ++ x) (append_assoc chunks k.later s.grows.more);
    },
  )
  FinishedAs-IsSame chunks w v v' unrecognized s (h, k) =
      ((λ j f p. rw s.dir (h j f p)), s.rows ∙ k)
  FinishedAs-IsSame chunks w v v' no_new s h = IsSettled-IsSame v v' s h
  FinishedAs-IsSame chunks w v v' no_internal s h = IsSettled-IsSame v v' s h
  FinishedAs-IsSame chunks w v v' failure s h = IsSettled-IsSame v v' s h

  -- What the other workers did before it, and the own worker.
  pub Ends-FinishedAs :
      (chunks : List Chunk) (w v v' : World) (s t : State) (x : NasResult)
      → IsSame nas w v
      → s.dir ≡ v.dirs nas
      → s.db ≡ v.db
      → v'.dirs nas ≡ t.dir
      → v'.db ≡ t.db
      → Ends nas chunks s t x
      → FinishedAs nas chunks w v' x
  Ends-FinishedAs chunks w v v' s t success a p q p' q' h = (
    rw (p', q') h.0,
    record {
      earlier = a.grows.more;
      later = [];
      table =
          ap (λ (x : Db). x.chunk) q'
          ∙ h.1
          ∙ ap (λ (x : Db). x.chunk ++ chunks) q
          ∙ ap (λ x. x ++ chunks) a.grows.appended
          ∙ ap (λ x. (w.db.chunk ++ a.grows.more) ++ x) (sym (append-nil chunks));
    },
  )
  Ends-FinishedAs chunks w v v' s t unrecognized a p q p' q' h = (
    (λ j f k. rw p' (h.gathered j f (rw (p, a.dir) k))),
    ap (rows_at nas) (q' ∙ h.same ∙ q) ∙ a.rows,
  )
  Ends-FinishedAs chunks w v v' s t no_new a p q p' q' h = rw (p', q') h.0
  Ends-FinishedAs chunks w v v' s t no_internal a p q p' q' h = rw (p', q') h.0
  Ends-FinishedAs chunks w v v' s t failure a p q p' q' h = rw (p', q') h.0

  pub is_marked-rows :
      (db db' : Db) → rows_at nas db' ≡ rows_at nas db → is_marked nas db' ≡ is_marked nas db
  is_marked-rows db db' p = λ i f.
      (sym (name_set-from nas db'.flow_batch f)
          ∙ ap (λ rows. get_or f (name_set [] rows) false) p
          ∙ name_set-from nas db.flow_batch f)
        i

  -- The lines that are not counted are the same for a worker that begins later.
  pub uncounted-IsSame :
      (w v : World) (s : State)
      → IsSame nas w v
      → s.dir ≡ v.dirs nas
      → s.db ≡ v.db
      → uncounted nas s ≡ uncounted nas (state_in nas w)
  uncounted-IsSame w v s a p q =
      let same : is_marked nas s.db ≡ is_marked nas w.db =
        is_marked-rows w.db s.db (ap (rows_at nas) q ∙ a.rows) in
      ap (λ c. flow_lines c s.dir.entries ++ flow_lines c (tmp_entries s.dir.tmp)) same
      ∙ ap
          (λ (d : NasDir).
            flow_lines (is_marked nas w.db) d.entries
            ++ flow_lines (is_marked nas w.db) (tmp_entries d.tmp))
          (p ∙ a.dir)

pub IsSame-Finished :
    {nas : Text} {n : Net} {channel_map : ChannelMap} {sessions : List OnlineSession}
    (w v v' : World)
    → IsSame nas v v'
    → Finished nas n channel_map sessions w v
    → Finished nas n channel_map sessions w v'
IsSame-Finished {nas} {n} w v v' s h = record {
  chunks = h.chunks;
  credits = h.credits;
  ends =
      FinishedAs-IsSame nas h.chunks w v v'
        (outcome_of true (verdict n (uncounted nas (state_in nas w))) h.chunks) s h.ends;
}
