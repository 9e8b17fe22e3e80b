-- ===== src/Machine/Reading.antt =====
-- Which files the chunks of a save come from: not the names that a worker keeps, but the bytes that
-- the file system gave it.
use aggregator_demo.Base.{
  not, ◌≡◌, ◌∙◌, refl, ap, Bool, true, false, Option, none, some, List, [], ◌∷◌, arith, text_eq,
  contains,
}
use aggregator_demo.Base.Text.{Text}
use aggregator_demo.Base.Map.{Map, lookup, get_or, has}
use aggregator_demo.Entity.{OnlineSession, Chunk, done}
use aggregator_demo.Traffic.{
  Net, ChannelMap, TrafficMap, new_flow_accumulator, accumulate_line, sift_loop, sifted,
  log_no_data, sift_traffic,
}
use aggregator_demo.Traffic.Accumulate.{accumulate_lines}
use aggregator_demo.Storage.{Dir, NasDir, Faults}
use aggregator_demo.Storage.Lookup.{tmp_has, is_flow_name}
use aggregator_demo.Storage.Complete.{is_file, tmp_file}
use aggregator_demo.Storage.Ready.{tmp_entries}
use aggregator_demo.Storage.Lines.{flow_lines}
use aggregator_demo.Flow.{prepare_and_stream}
use aggregator_demo.Flow.Whole.{prepare_and_stream-IsWhole}
use aggregator_demo.Aggregator.Settled.{accumulate_line-quiet}
use aggregator_demo.Aggregator.Credits.{called-accumulate_lines}

-- The chunks are the sums of all lines of the named files, read to their ends from this `tmp`: each
-- line of each of them was accumulated once, and no line of another flow file of `tmp`. The
-- networks, the channels and the sessions are those that the worker had when it read.
pub record IsReadFrom (tmp : Dir) (fresh : List Text) (chunks : List Chunk) : Type 0 where
  pub net : Net
  pub channel_map : ChannelMap
  pub sessions : List OnlineSession
  pub there : (f : Text) → contains fresh f ≡ true → (has f tmp ≡ true) × (is_flow_name f ≡ true)
  pub others : Text → Bool
  pub apart :
      (f : Text)
      → is_flow_name f ≡ true
      → is_file (lookup f tmp) ≡ true
      → others f ≡ not (contains fresh f)
  pub sums :
      chunks
      ≡ sift_loop channel_map
          (accumulate_lines net
            (new_flow_accumulator channel_map)
            (flow_lines others tmp)).traffic_map
          sessions

pub tmp_file-entries :
    (f : Text) (d : NasDir) → is_file (lookup f (tmp_entries d.tmp)) ≡ tmp_file f d
unfolding lookup
tmp_file-entries f d = by_tmp d.tmp
  where
    by_tmp :
        (t : Option Dir)
        → is_file (lookup f (tmp_entries t))
          ≡ elim t [ none ↦ false | some x ↦ is_file (lookup f x) ]
    by_tmp none = refl
    by_tmp (some x) = refl

pub tmp_has-entries : (f : Text) (d : NasDir) → has f (tmp_entries d.tmp) ≡ tmp_has f d
unfolding lookup
tmp_has-entries f d = by_tmp d.tmp
  where
    by_tmp : (t : Option Dir) → has f (tmp_entries t) ≡ elim t [ none ↦ false | some x ↦ has f x ]
    by_tmp none = refl
    by_tmp (some x) = refl

-- Chunks without an error are all that were sifted.
pub sift_traffic-chunks :
    (channel_map : ChannelMap) (m : TrafficMap) (sessions : List OnlineSession)
    (chunks : List Chunk)
    → sift_traffic channel_map m sessions ≡ done (chunks, none)
    → chunks ≡ sift_loop channel_map m sessions
unfolding sift_traffic sifted log_no_data
sift_traffic-chunks channel_map m sessions chunks h =
    by_chunks sessions (sift_loop channel_map m sessions) h
  where
    by_chunks :
        (s : List OnlineSession) (all : List Chunk)
        → sifted s all ≡ done (chunks, none)
        → chunks ≡ all
    by_chunks [] [] p = absurd (cc p)
    by_chunks (x ∷ s) [] p = absurd (cc p)
    by_chunks s (c ∷ all) p = cc p

-- What a worker sifts from a stream without an error it has read from `tmp`.
pub stream-IsReadFrom :
    (f : Faults) (n : Net) (channel_map : ChannelMap) (sessions : List OnlineSession)
    (committed : Map Text Bool) (fresh : List Text) (chunks : List Chunk) (d : NasDir)
    → let r =
        prepare_and_stream f (accumulate_line n) committed (new_flow_accumulator channel_map) d in
      r.1.error ≡ none
      → ((x : Text) → contains fresh x ≡ true → (tmp_has x r.0 ≡ true) × (is_flow_name x ≡ true))
      → ((x : Text)
          → is_flow_name x ≡ true
          → tmp_file x r.0 ≡ true
          → contains fresh x ≡ not (get_or x committed false))
      → chunks ≡ sift_loop channel_map r.1.state.traffic_map sessions
      → IsReadFrom (tmp_entries r.0.tmp) fresh chunks
stream-IsReadFrom f n channel_map sessions committed fresh chunks d p g h q =
    let from = new_flow_accumulator channel_map in
    let r = prepare_and_stream f (accumulate_line n) committed from d in
    let others : Text → Bool = λ x. get_or x committed false in
    let lines = flow_lines others (tmp_entries r.0.tmp) in
    record {
      net = n;
      channel_map = channel_map;
      sessions = sessions;
      there = λ x k. (tmp_has-entries x r.0 ∙ (g x k).0, (g x k).1);
      others = others;
      apart = λ x flow k. let e = h x flow (cc (tmp_file-entries x r.0, k)) in ground arith;
      sums =
          q
          ∙ ap (λ a. sift_loop channel_map a.traffic_map sessions)
              (prepare_and_stream-IsWhole f (accumulate_line n) (accumulate_line-quiet n) committed
                  from d p
                ∙ called-accumulate_lines n from lines);
    }
