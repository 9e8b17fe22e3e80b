-- ===== src/Aggregator/Credits.antt =====
-- A run of `Aggregate` in which no call fails, from the bytes of the flow files to the chunks.
use mathlib.Core.Path.{subst}
use mathlib.Core.List.{Perm, append-nil}
use aggregator_demo.Base.{
  ◌≡◌, ◌≢◌, refl, Bool, sym, ap, ◌∙◌, ℕ, true, false, none, List, [], ◌∷◌, ◌++◌, arith, text_eq,
  nat_eq, contains, All, if◌then◌else◌,
}
use aggregator_demo.Base.Text.{Text}
use aggregator_demo.Base.Map.{lookup, get_or, NodupKeys}
use aggregator_demo.Entity.{OnlineSession, Chunk, new_chunk, Outcome, done}
use aggregator_demo.Traffic.{
  Net, ChannelMap, FlowAccumulator, enabled, new_flow_accumulator, accumulate_line, result,
  sift_loop,
}
use aggregator_demo.Traffic.Credit.{total, credits}
use aggregator_demo.Traffic.Accumulate.{accumulate_lines}
use aggregator_demo.Traffic.Order.{total-perm, verdict-perm}
use aggregator_demo.Traffic.Verdict.{is_empty, verdict, result-verdict}
use aggregator_demo.Traffic.Sift.{chunks_for, chunks_for-accumulated}
use aggregator_demo.Database.{batch_row, row_eq, name_set, Db}
use aggregator_demo.Storage.Lookup.{is_flow_name}
use aggregator_demo.Storage.Complete.{is_file}
use aggregator_demo.Storage.Ready.{IsReady, tmp_entries}
use aggregator_demo.Storage.Lines.{called, flow_lines, fresh_lines-flow_lines}
use aggregator_demo.Aggregator.Loaded.{name_set-from}
use aggregator_demo.Flow.Pending.{IsApart, pending}
use aggregator_demo.Flow.Read.{prepare_and_stream-IsRead}
use aggregator_demo.Aggregator.Stages.{State, aggregate}
use aggregator_demo.Aggregator.Healthy.{healthy, rows_at}
use aggregator_demo.Aggregator.Ends.{outcome_of, Settles, IsSettled}
use aggregator_demo.Aggregator.Settled.{accumulate_line-quiet, stream_of}
use aggregator_demo.Aggregator.Counted.{aggregate-Counts}

pub called-accumulate_lines :
    (n : Net) (a : FlowAccumulator) (lines : List Text)
    → called (accumulate_line n) (accumulate_line-quiet n) a lines ≡ accumulate_lines n a lines
unfolding called accumulate_lines
called-accumulate_lines n a [] = refl
called-accumulate_lines n a (line ∷ lines) =
    called-accumulate_lines n (accumulate_line n a line).0 lines

-- The chunks of a run that saved some: one for each session on each enabled channel, with the sum of
-- what the lines credit the session's address with there, and no other for that session. The session's id is
-- that of no other.
abbrev pub AreCredits : Net → ChannelMap → List Text → List OnlineSession → List Chunk → Type 0
AreCredits n channel_map lines sessions chunks =
    (before after : List OnlineSession) (sess : OnlineSession) (c : ℕ)
    → sessions ≡ before ++ sess ∷ after
    → All (λ x. x.sess_id ≢ sess.sess_id) before
    → All (λ x. x.sess_id ≢ sess.sess_id) after
    → chunks_for sess.sess_id c chunks ≡ (
        let t = total sess.ip c (credits n lines) in
        if enabled channel_map c then new_chunk sess.sess_id c t.download t.upload ∷ [] else [])

-- How a run ends that counted these lines.
pub record IsCredited (nas_ip : Text) (n : Net) (channel_map : ChannelMap) (lines : List Text)
    (sessions : List OnlineSession) (s : State) (r : State × Outcome (Unit {0})) : Type 0 where
  pub returns : r.1 ≡ done tt
  pub settled : IsSettled nas_ip r.0.dir r.0.db
  pub chunks : List Chunk
  pub saved : r.0.db.chunk ≡ s.db.chunk ++ chunks
  pub credits : AreCredits n channel_map lines sessions chunks

verdict-credits :
    (n : Net) (lines : List Text) → is_empty (credits n lines) ≡ false → verdict n lines ≡ none
unfolding verdict
verdict-credits n lines h = ground arith

Settles-saved :
    (nas_ip : Text) (s : State) (r : State × Outcome (Unit {0})) (chunks : List Chunk)
    → Settles nas_ip (outcome_of true none chunks) chunks s r
    → IsSettled nas_ip r.0.dir r.0.db × (r.0.db.chunk ≡ s.db.chunk ++ chunks)
Settles-saved nas_ip s r [] h = (h.ends.0, h.ends.1 ∙ sym (append-nil s.db.chunk))
Settles-saved nas_ip s r (c ∷ chunks) h = h.ends

sift_loop-AreCredits :
    (n : Net) (channel_map : ChannelMap) (sessions : List OnlineSession) (lines pending : List Text)
    (a : FlowAccumulator)
    → NodupKeys channel_map
    → a ≡ accumulate_lines n (new_flow_accumulator channel_map) lines
    → Perm lines pending
    → AreCredits n channel_map pending sessions (sift_loop channel_map a.traffic_map sessions)
sift_loop-AreCredits n channel_map sessions lines pending a u p order before after sess c q hb ha =
    (λ i. chunks_for sess.sess_id c (sift_loop channel_map (p i).traffic_map (q i)))
    ∙ chunks_for-accumulated n channel_map lines before after sess c u hb ha
    ∙ ap
        (λ t.
          if enabled channel_map c then new_chunk sess.sess_id c t.download t.upload ∷ [] else [])
        (total-perm sess.ip c n order)

-- The file has a row in the checkpoint.
abbrev pub is_marked : Text → Db → Text → Bool
is_marked nas_ip db f = contains db.flow_batch (batch_row nas_ip f)

-- The lines of all flow files of the directory and of `tmp` that have no row in the checkpoint. They
-- are told from the files and the rows alone.
abbrev pub uncounted : Text → State → List Text
uncounted nas_ip s =
    let counted = is_marked nas_ip s.db in
    flow_lines counted s.dir.entries ++ flow_lines counted (tmp_entries s.dir.tmp)

-- What `StreamFlow` is to read with the names that were loaded are the lines that are not counted.
pending-uncounted :
    (nas_ip : Text) (s : State)
    → pending (name_set [] (rows_at nas_ip s.db)) s.dir ≡ uncounted nas_ip s
pending-uncounted nas_ip s =
    let skip = name_set [] (rows_at nas_ip s.db) in
    let same : (λ (f : Text). get_or f skip false) ≡ is_marked nas_ip s.db =
      λ i f. name_set-from nas_ip s.db.flow_batch f i in
    cc (
      fresh_lines-flow_lines skip s.dir.entries,
      fresh_lines-flow_lines skip (tmp_entries s.dir.tmp),
      ap (λ c. flow_lines c s.dir.entries ++ flow_lines c (tmp_entries s.dir.tmp)) same,
    )

-- How a run ends that read these lines: the error is the one that the lines call for, the chunks
-- have what they credit, and the files, the rows and the chunks of the database are as that says.
pub record IsOutcome (nas_ip : Text) (n : Net) (channel_map : ChannelMap) (lines : List Text)
    (sessions : List OnlineSession) (s : State) (r : State × Outcome (Unit {0})) : Type 0 where
  pub chunks : List Chunk
  pub credits : AreCredits n channel_map lines sessions chunks
  pub settles : Settles nas_ip (outcome_of true (verdict n lines) chunks) chunks s r

module _ (nas_ip : Text) (sess : OnlineSession) (rest : List OnlineSession)
    (channel_map : ChannelMap) (n : Net) (s : State) where
  module _ (unique : NodupKeys s.dir.entries) (ready : IsReady s.dir) (apart : IsApart s.dir)
      (channels : NodupKeys channel_map) (new : Text) (flow : is_flow_name new ≡ true)
      (there : is_file (lookup new s.dir.entries) ≡ true)
      (unmarked : contains s.db.flow_batch (batch_row nas_ip new) ≡ false) where
    -- A run in which no call fails, on a directory with a flow file that is not in the checkpoint,
    -- ends as the lines of all flow files that are not in the checkpoint say.
    pub aggregate-IsOutcome :
        IsOutcome nas_ip n channel_map
          (uncounted nas_ip s)
          (sess ∷ rest)
          s
          (aggregate healthy nas_ip (sess ∷ rest) channel_map n s)
    aggregate-IsOutcome =
        let skip = name_set [] (rows_at nas_ip s.db) in
        let from = new_flow_accumulator channel_map in
        let state = (stream_of nas_ip sess rest channel_map n s).1.state in
        let read =
          prepare_and_stream-IsRead (accumulate_line n) (accumulate_line-quiet n) skip from s.dir
            unique ready apart new flow there in
        let order : Perm read.lines (uncounted nas_ip s) =
          subst (Perm read.lines) (pending-uncounted nas_ip s) read.order in
        let same : state ≡ accumulate_lines n from read.lines =
          read.state ∙ called-accumulate_lines n from read.lines in
        let same_verdict : (result state).1 ≡ verdict n (uncounted nas_ip s) =
          ap (λ a. (result a).1) same
          ∙ result-verdict n channel_map read.lines
          ∙ verdict-perm n order in
        let chunks = sift_loop channel_map state.traffic_map (sess ∷ rest) in
        let r = aggregate healthy nas_ip (sess ∷ rest) channel_map n s in
        record {
          chunks = chunks;
          credits =
              sift_loop-AreCredits n channel_map (sess ∷ rest) read.lines (uncounted nas_ip s) state
                channels same order;
          settles =
              subst (λ o. Settles nas_ip (outcome_of true o chunks) chunks s r) same_verdict
                (aggregate-Counts nas_ip sess rest channel_map n s unique ready new flow there new
                  flow (ground arith) unmarked);
        }

    -- If the lines credit some client, the run returns, leaves no flow file and no row of the
    -- checkpoint, and saves the chunks that the lines call for.
    pub aggregate-IsCredited :
        is_empty (credits n (uncounted nas_ip s)) ≡ false
        → IsCredited nas_ip n channel_map
            (uncounted nas_ip s)
            (sess ∷ rest)
            s
            (aggregate healthy nas_ip (sess ∷ rest) channel_map n s)
    aggregate-IsCredited some_credit =
        let lines = uncounted nas_ip s in
        let r = aggregate healthy nas_ip (sess ∷ rest) channel_map n s in
        let o = aggregate-IsOutcome in
        let saved = Settles-saved nas_ip s r o.chunks (
          subst (λ x. Settles nas_ip (outcome_of true x o.chunks) o.chunks s r)
            (verdict-credits n lines some_credit) o.settles) in
        record {
          returns = o.settles.returns;
          settled = saved.0;
          chunks = o.chunks;
          saved = saved.1;
          credits = o.credits;
        }
