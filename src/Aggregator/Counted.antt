-- ===== src/Aggregator/Counted.antt =====
-- A run of `Aggregate` in which no call fails, on a directory with a flow file that is not in the
-- checkpoint.
use mathlib.Core.Path.{subst}
use aggregator_demo.Base.{◌≡◌, Bool, true, false, List, [], ◌∷◌, arith, text_eq, contains, ◌||◌}
use aggregator_demo.Base.Text.{Text}
use aggregator_demo.Base.Map.{Map, lookup, NodupKeys, get_or}
use aggregator_demo.Entity.{OnlineSession}
use aggregator_demo.Traffic.{Net, ChannelMap, new_flow_accumulator, accumulate_line, result}
use aggregator_demo.Database.{batch_row, row_eq, name_set}
use aggregator_demo.Storage.{no_faults}
use aggregator_demo.Storage.Lookup.{is_flow_name}
use aggregator_demo.Storage.Complete.{is_file, tmp_file}
use aggregator_demo.Storage.Ready.{IsReady}
use aggregator_demo.Flow.Gathered.{prepare_and_stream-IsStreamed}
use aggregator_demo.Flow.Complete.{prepare_and_stream-IsComplete}
use aggregator_demo.Aggregator.Loaded.{name_set-from}
use aggregator_demo.Aggregator.Stages.{State, has_new_file, aggregate}
use aggregator_demo.Aggregator.Healthy.{healthy, rows_at}
use aggregator_demo.Aggregator.Ends.{outcome_of, Settles}
use aggregator_demo.Aggregator.Settled.{
  accumulate_line-quiet, stream_of, chunks_for, aggregate-Settles,
}

has_new_file-found :
    (names : List Text) (committed : Map Text Bool) (f : Text)
    → contains names f ≡ true
    → get_or f committed false ≡ false
    → has_new_file names committed ≡ true
unfolding has_new_file
has_new_file-found [] committed f h k = absurd (cc h)
has_new_file-found (g ∷ names) committed f h k =
    ground (arith, has_new_file-found names committed f)

module _ (nas_ip : Text) (sess : OnlineSession) (rest : List OnlineSession)
    (channel_map : ChannelMap) (n : Net) (s : State) (unique : NodupKeys s.dir.entries)
    (ready : IsReady s.dir) (new : Text) (flow : is_flow_name new ≡ true)
    (there : is_file (lookup new s.dir.entries) ≡ true) where
  -- A flow file of the directory or of `tmp` that is not in the checkpoint is read as a new one.
  stream_of-new :
      (f : Text)
      → is_flow_name f ≡ true
      → (is_file (lookup f s.dir.entries) || tmp_file f s.dir) ≡ true
      → contains s.db.flow_batch (batch_row nas_ip f) ≡ false
      → has_new_file
          (stream_of nas_ip sess rest channel_map n s).1.names
          (name_set [] (rows_at nas_ip s.db))
        ≡ true
  stream_of-new f h k out =
      let skip = name_set [] (rows_at nas_ip s.db) in
      let q =
        prepare_and_stream-IsStreamed (accumulate_line n) (accumulate_line-quiet n) skip
          (new_flow_accumulator channel_map) s.dir unique ready new flow there in
      let c =
        prepare_and_stream-IsComplete no_faults (accumulate_line n) f h skip
          (new_flow_accumulator channel_map) s.dir (q.gathered f h k) q.no_error in
      has_new_file-found (stream_of nas_ip sess rest channel_map n s).1.names skip f c
        (ground (arith, name_set-from nas_ip s.db.flow_batch f))

  -- If no call fails any more, a flow file of the directory or of `tmp` that is not in the checkpoint
  -- makes the run count: with lines that are recognized and at least one chunk all chunks are saved,
  -- and the outcome is never "no new files".
  pub aggregate-Counts :
      (f : Text)
      → is_flow_name f ≡ true
      → (is_file (lookup f s.dir.entries) || tmp_file f s.dir) ≡ true
      → contains s.db.flow_batch (batch_row nas_ip f) ≡ false
      → let chunks = chunks_for nas_ip sess rest channel_map n s in
        Settles nas_ip
          (outcome_of true (result (stream_of nas_ip sess rest channel_map n s).1.state).1 chunks)
          chunks
          s
          (aggregate healthy nas_ip (sess ∷ rest) channel_map n s)
  aggregate-Counts f h k out =
      let chunks = chunks_for nas_ip sess rest channel_map n s in
      let verdict = (result (stream_of nas_ip sess rest channel_map n s).1.state).1 in
      subst
        (λ b.
          Settles nas_ip (outcome_of b verdict chunks) chunks s
            (aggregate healthy nas_ip (sess ∷ rest) channel_map n s))
        (stream_of-new f h k out)
        (aggregate-Settles nas_ip sess rest channel_map n s new unique ready flow there)
