-- ===== src/Machine/Fits.antt =====
-- What a worker knows at each of its points of the checkpoint and of its directory.
use aggregator_demo.Base.{
  not, ◌&&◌, ◌≡◌, refl, Bool, true, false, Option, none, some, List, [], ◌∷◌, arith, text_eq, All,
  Bool-cases, inl, inr, contains,
}
use aggregator_demo.Base.Text.{Text}
use aggregator_demo.Base.Map.{Map, get_or}
use aggregator_demo.Entity.{
  Error, no_data, OnlineSession, Chunk, Result, ok, err, Outcome, done, panic,
}
use aggregator_demo.Traffic.{
  ChannelMap, TrafficMap, FlowAccumulator, result, sift_loop, sift_traffic,
}
use aggregator_demo.Database.{batch_row, row_eq, Db}
use aggregator_demo.Storage.{Dir, NasDir, Streamed}
use aggregator_demo.Storage.Lookup.{tmp_has, is_flow_name}
use aggregator_demo.Storage.Complete.{tmp_file}
use aggregator_demo.Aggregator.Save.{Env}
use aggregator_demo.Aggregator.Stages.{has_new_file}
use aggregator_demo.Machine.{
  Point, counted, no_traffic, start, loaded, saving, cleaning, cleaned, stopped, load_point, unread,
  commit_point, clean_point, account_panics, sift_point, result_point, stream_point,
}
use aggregator_demo.Aggregator.Loaded.{IsCheckpoint}
use aggregator_demo.Storage.Ready.{tmp_entries}
use aggregator_demo.Machine.Reading.{IsReadFrom, sift_traffic-chunks}

abbrev pub AllInTmp : NasDir → List Text → Type 0
AllInTmp d = All (λ f. (tmp_has f d ≡ true) × (is_flow_name f ≡ true))

-- What a worker knows before it saves: the names are those of all flow files of `tmp`, and the files
-- that were read are those of them that are not in the checkpoint. The chunks are what was read.
pub record IsSaving (j : Text) (db : Db) (d : NasDir) (fresh names : List Text)
    (chunks : List Chunk) : Type 0 where
  pub in_tmp : AllInTmp d names
  pub among : (f : Text) → contains fresh f ≡ true → contains names f ≡ true
  pub split :
      (f : Text)
      → contains names f ≡ true
      → contains fresh f ≡ not (contains db.flow_batch (batch_row j f))
  pub complete : (f : Text) → is_flow_name f ≡ true → tmp_file f d ≡ true → contains names f ≡ true
  pub read : IsReadFrom (tmp_entries d.tmp) fresh chunks

-- Every flow file of `tmp` has its row in the log.
abbrev pub IsCounted : Text → Db → NasDir → Type 0
IsCounted j db d =
    (f : Text)
    → is_flow_name f ≡ true
    → tmp_file f d ≡ true
    → contains db.inserted (batch_row j f) ≡ true

-- The checkpoint that was loaded is that of the database; before the files are removed because they
-- are counted, each of them is; and behind the files `tmp` has no flow file.
abbrev pub Fits : Text → Db → NasDir → Point → Type 0
Fits j db d start = Unit
Fits j db d (loaded committed) =
    (f : Text) → get_or f committed false ≡ contains db.flow_batch (batch_row j f)
Fits j db d (saving fresh names chunks) = IsSaving j db d fresh names chunks
Fits j db d (cleaning counted) = IsCounted j db d
Fits j db d (cleaning no_traffic) = Unit
Fits j db d cleaned = (f : Text) → is_flow_name f ≡ true → tmp_has f d ≡ false
Fits j db d stopped = Unit

module _ (j : Text) where
  -- Another database with the same rows of the directory, and no shorter log.
  pub Fits-same :
      (p : Point) (d : NasDir) (db db' : Db)
      → ((f : Text)
          → contains db'.flow_batch (batch_row j f) ≡ contains db.flow_batch (batch_row j f))
      → ((f : Text)
          → contains db.inserted (batch_row j f) ≡ true
          → contains db'.inserted (batch_row j f) ≡ true)
      → Fits j db d p
      → Fits j db' d p
  Fits-same start d db db' k l h = tt
  Fits-same (loaded committed) d db db' k l h = λ f. cc (h f, k f)
  Fits-same (saving fresh names chunks) d db db' k l h = record {
    in_tmp = h.in_tmp;
    among = h.among;
    split = λ f p. cc (h.split f p, k f);
    complete = h.complete;
    read = h.read;
  }
  Fits-same (cleaning counted) d db db' k l h = λ f p q. l f (h f p q)
  Fits-same (cleaning no_traffic) d db db' k l h = tt
  Fits-same cleaned d db db' k l h = h
  Fits-same stopped d db db' k l h = tt

  -- Other entries outside `tmp`.
  pub Fits-entries :
      (p : Point) (entries : Dir) (d : NasDir) (db : Db)
      → Fits j db d p
      → Fits j db (record d { entries = entries }) p
  Fits-entries start entries d db h = tt
  Fits-entries (loaded committed) entries d db h = h
  Fits-entries (saving fresh names chunks) entries d db h = record {
    in_tmp = h.in_tmp;
    among = h.among;
    split = h.split;
    complete = h.complete;
    read = h.read;
  }
  Fits-entries (cleaning counted) entries d db h = h
  Fits-entries (cleaning no_traffic) entries d db h = tt
  Fits-entries cleaned entries d db h = h
  Fits-entries stopped entries d db h = tt

  pub Fits-load_point :
      (r : Result (Map Text Bool)) (d : NasDir) (db : Db)
      → IsCheckpoint j db.flow_batch r
      → Fits j db d (load_point r)
  unfolding load_point
  Fits-load_point (ok committed) d db h = h
  Fits-load_point (err x) d db h = tt

  pub Fits-commit_point :
      (o : Option Error) (d : NasDir) (db : Db)
      → (o ≡ none → IsCounted j db d)
      → Fits j db d (commit_point o)
  unfolding commit_point
  Fits-commit_point none d db h = h refl
  Fits-commit_point (some x) d db h = tt

  pub Fits-clean_point :
      (o : Option Error) (d : NasDir) (db : Db)
      → (o ≡ none → (f : Text) → is_flow_name f ≡ true → tmp_has f d ≡ false)
      → Fits j db d (clean_point o)
  unfolding clean_point
  Fits-clean_point none d db h = h refl
  Fits-clean_point (some x) d db h = tt

-- The names that were read are those that are not in the checkpoint.
pub contains-unread :
    (committed : Map Text Bool) (names : List Text) (f : Text)
    → contains (unread committed names) f ≡ (contains names f && not (get_or f committed false))
unfolding unread
contains-unread committed [] f = refl
contains-unread committed (g ∷ names) f = ground (arith, contains-unread committed names f)

-- Without a new file all names are in the checkpoint.
pub has_new_file-none :
    (committed : Map Text Bool) (names : List Text) (f : Text)
    → has_new_file names committed ≡ false
    → contains names f ≡ true
    → get_or f committed false ≡ true
unfolding has_new_file
has_new_file-none committed [] f h k = absurd (cc k)
has_new_file-none committed (g ∷ names) f h k = ground (arith, has_new_file-none committed names f)

-- A property of both ends of a run without a save, of the removal of files that are all counted, and
-- of every save of the chunks that were sifted and the names that were read.
module _ {κ} (P : Point → Type κ) (stops : P stopped) (cleans : P (cleaning no_traffic)) (e : Env)
    (nas_ip : Text) (sessions : List OnlineSession) (channel_map : ChannelMap)
    (committed : Map Text Bool) where
  sift_point-holds :
      (names : List Text) (o : Outcome (List Chunk × Option Error))
      → ((chunks : List Chunk)
          → o ≡ done (chunks, none)
          → P (saving (unread committed names) names chunks))
      → P (sift_point e nas_ip committed names o)
  unfolding sift_point
  sift_point-holds names panic h = stops
  sift_point-holds names (done (chunks, none)) h =
      elim (Bool-cases (account_panics e nas_ip chunks)) [
        | inl k ↦ rw k stops
        | inr k ↦ rw k (h chunks refl)
      ]
  sift_point-holds names (done (chunks, some no_data)) h = cleans
  sift_point-holds names (done (chunks, some x)) h = stops

  result_point-holds :
      (names : List Text) (r : TrafficMap × Option Error)
      → ((chunks : List Chunk)
          → chunks ≡ sift_loop channel_map r.0 sessions
          → P (saving (unread committed names) names chunks))
      → P (result_point e nas_ip sessions channel_map committed names r)
  unfolding result_point
  result_point-holds names (m, none) h =
      sift_point-holds names (sift_traffic channel_map m sessions)
        (λ chunks q. h chunks (sift_traffic-chunks channel_map m sessions chunks q))
  result_point-holds names (m, some no_data) h = cleans
  result_point-holds names (m, some x) h = stops

  pub stream_point-holds :
      (r : Streamed FlowAccumulator) (o : Option Error)
      → (o ≡ none → has_new_file r.names committed ≡ false → P (cleaning counted))
      → (o ≡ none
          → (chunks : List Chunk) → chunks ≡ sift_loop channel_map r.state.traffic_map sessions
          → P (saving (unread committed r.names) r.names chunks))
      → P (stream_point e nas_ip sessions channel_map committed r o)
  unfolding stream_point
  stream_point-holds r (some x) c h = stops
  stream_point-holds r none c h = elim (Bool-cases (has_new_file r.names committed)) [
    | inl k ↦ rw k (
        result_point-holds r.names (result r.state)
          (λ chunks q. h refl chunks (unfold result in q)))
    | inr k ↦ rw k (c refl k)
  ]
