-- ===== src/Flow/Read.antt =====
-- What `StreamFlow` of the usecase reads when no call fails.
use mathlib.Core.List.{Perm}
use aggregator_demo.Base.{◌≡◌, refl, ap, Bool, true, Option, none, some, List, ◌++◌, All, text_eq}
use aggregator_demo.Base.Text.{Text}
use aggregator_demo.Base.Map.{Map, lookup, NodupKeys}
use aggregator_demo.Entity.{Error}
use aggregator_demo.Storage.{Dir, NasDir, no_faults, file_names, stream_tmp, stream_flow, Streamed}
use aggregator_demo.Storage.Lookup.{is_flow_name}
use aggregator_demo.Storage.Complete.{is_file}
use aggregator_demo.Storage.Ready.{IsPlain, IsReady, tmp_entries}
use aggregator_demo.Storage.Lines.{fresh_lines, called, stream_entries-state}
use aggregator_demo.Flow.{prepare_and_stream}
use aggregator_demo.Flow.Ready.{file_names-AreFiles}
use aggregator_demo.Flow.Gathered.{
  after, after-IsMoved, after-none, after-stream, prepare_and_stream-after,
}
use aggregator_demo.Flow.Pending.{IsApart, pending, move_files-pending, fresh_lines-none}

module _ {ℓ} {S : Type ℓ} (on_line : S → Text → S × Option Error)
    (quiet : (s : S) (text : Text) → (on_line s text).1 ≡ none) (skip : Map Text Bool) (s : S)
    (d : NasDir) where
  -- The callback was called with each pending line, in some order.
  pub record IsRead (r : Streamed S) : Type ℓ where
    pub lines : List Text
    pub order : Perm lines (pending skip d)
    pub state : r.state ≡ called on_line quiet s lines

  stream_tmp-state :
      (tmp : Option Dir)
      → All IsPlain (tmp_entries tmp)
      → (stream_tmp no_faults on_line none skip s tmp).state
        ≡ called on_line quiet s (fresh_lines skip (tmp_entries tmp))
  unfolding stream_tmp called fresh_lines
  stream_tmp-state none h = refl
  stream_tmp-state (some t) h = stream_entries-state on_line quiet skip t _ s 0 h

  module _ (unique : NodupKeys d.entries) (ready : IsReady d) (apart : IsApart d) (new : Text)
      (flow : is_flow_name new ≡ true) (there : is_file (lookup new d.entries) ≡ true) where
    left_over : NasDir
    left_over = (after on_line quiet skip s d unique ready new flow there).0

    left_over-pending : Perm (fresh_lines skip (tmp_entries left_over.tmp)) (pending skip d)
    unfolding left_over after
    left_over-pending =
        rw
          (← ap (λ x. x ++ fresh_lines skip (tmp_entries left_over.tmp))
            (fresh_lines-none skip left_over.entries
              (after-none on_line quiet skip s d unique ready new flow there)))
          (move_files-pending skip (file_names d.entries) d (file_names-AreFiles d.entries unique)
            ready unique apart)

    -- If no call fails and a flow file stands in the directory, `StreamFlow` reads each line of the
    -- flow files of the directory and of `tmp` once, without the files of the checkpoint.
    pub prepare_and_stream-IsRead : IsRead (prepare_and_stream no_faults on_line skip s d).1
    unfolding after-stream stream_flow left_over
    prepare_and_stream-IsRead =
        rw (prepare_and_stream-after on_line quiet skip s d unique ready new flow there) (record {
          lines = fresh_lines skip (tmp_entries left_over.tmp);
          order = left_over-pending;
          state =
              stream_tmp-state left_over.tmp
                (after-IsMoved on_line quiet skip s d unique ready new flow there).ready.inside;
        })
