-- ===== src/Machine/Waiting.antt =====
-- A flow file that waits in a directory of the service, and the next run that meets no failure.
use aggregator_demo.Base.{
  ◌≡◌, ◌≢◌, true, false, Bool-cases, inl, inr, Option, none, some, refl, List, [], ◌∷◌, arith,
  text_eq, nat_eq, contains,
}
use aggregator_demo.Base.Text.{Text}
use aggregator_demo.Base.Map.{lookup, NodupKeys, has}
use aggregator_demo.Entity.{no_rows, no_data, OnlineSession}
use aggregator_demo.Traffic.{Net, ChannelMap}
use aggregator_demo.Database.{Db, batch_row, row_eq}
use aggregator_demo.Storage.{Dir, NasDir}
use aggregator_demo.Storage.Lookup.{is_flow_name}
use aggregator_demo.Storage.Complete.{is_file}
use aggregator_demo.Storage.Ready.{IsReady, tmp_entries}
use aggregator_demo.Storage.Sorted.{IsSorted-NodupKeys}
use aggregator_demo.Flow.Pending.{IsApart}
use aggregator_demo.Traffic.Credit.{credits}
use aggregator_demo.Traffic.Verdict.{is_empty}
use aggregator_demo.Aggregator.Credits.{
  uncounted, IsOutcome, aggregate-IsOutcome, IsCredited, aggregate-IsCredited,
}
use aggregator_demo.Machine.Sorted.{Reached-AreSorted}
use aggregator_demo.Aggregator.Save.{Env}
use aggregator_demo.Aggregator.Guard.{IsGuarded}
use aggregator_demo.Aggregator.Stages.{State, aggregate}
use aggregator_demo.Aggregator.Healthy.{healthy}
use aggregator_demo.Machine.Rows.{IsLogged}
use aggregator_demo.Machine.Interleaved.{Service, Reached}
use aggregator_demo.Machine.Exact.{Reached-IsExact}

-- A file that waits in the directory has no row in the checkpoint.
waiting-unmarked :
    (nas_ip : Text) (d : NasDir) (db : Db) (f : Text)
    → IsGuarded nas_ip d db
    → IsLogged db
    → is_file (lookup f d.entries) ≡ true
    → contains db.flow_batch (batch_row nas_ip f) ≡ false
waiting-unmarked nas_ip d db f g k h =
    elim (Bool-cases (contains db.flow_batch (batch_row nas_ip f))) [
      | inl p ↦ absurd (cc (k (batch_row nas_ip f) p, g.waiting f (ground arith)))
      | inr p ↦ p
    ]

tmp-free :
    (f : Text) (tmp : Option Dir)
    → elim tmp [ none ↦ false | some t ↦ has f t ] ≡ false
    → lookup f (tmp_entries tmp) ≡ none
unfolding lookup
tmp-free f none h = refl
tmp-free f (some t) h = ground arith

IsGuarded-IsApart : (nas_ip : Text) (d : NasDir) (db : Db) → IsGuarded nas_ip d db → IsApart d
IsGuarded-IsApart nas_ip d db g f flow h = tmp-free f d.tmp (g.apart f flow h)

-- What a worker finds that begins with its directory and the database of the service.
abbrev pub found : Service → Text → State
found w nas_ip = record { dir = w.dirs nas_ip; db = w.db; events = [] }

module _ (A : Env → Type 0) (rows : (e : Env) → A e → e.select_names ≢ some no_rows)
    (answers : (e : Env) → A e → e.select_names ≢ some no_data) where
  unique : (w : Service) → Reached A w → (j : Text) → NodupKeys (w.dirs j).entries
  unique w r j = IsSorted-NodupKeys (w.dirs j).entries (Reached-AreSorted A w r j)

  -- Let the service come to any state in which a flow file waits in a directory, by any steps of all
  -- workers with any faults, kills and restarts. If the next run of `Aggregate` on that directory
  -- meets no failure and no other worker's step, it takes the file as a new one, whatever was left
  -- in `tmp` and in the checkpoint, and ends as the lines say of all flow files of the directory
  -- and of `tmp` that are not in the checkpoint. Its chunks are those that the lines credit, one for
  -- each session of the list on each enabled channel, if its id is that of no other. If no line is
  -- recognized the flow files wait in `tmp` and the database is as it was; if all traffic is between
  -- external addresses, or there is no chunk, the table of chunks is as it was; and else all chunks
  -- are saved. In each case but the first no flow file and no row of the checkpoint is left. No
  -- channel stands twice, no file has a line that is too long, no directory has the name of a flow
  -- file, and the driver does not report `sql.ErrNoRows` or `ErrNoData` for a query that selects
  -- rows into a slice.
  pub waiting-Counts :
      (w : Service) (nas_ip : Text) (sess : OnlineSession) (rest : List OnlineSession)
      (channel_map : ChannelMap) (n : Net) (new : Text)
      → Reached A w
      → NodupKeys channel_map
      → IsReady (w.dirs nas_ip)
      → is_flow_name new ≡ true
      → is_file (lookup new (w.dirs nas_ip).entries) ≡ true
      → IsOutcome nas_ip n channel_map
          (uncounted nas_ip (found w nas_ip))
          (sess ∷ rest)
          (found w nas_ip)
          (aggregate healthy nas_ip (sess ∷ rest) channel_map n (found w nas_ip))
  waiting-Counts w nas_ip sess rest channel_map n new r channels ready flow there =
      let h = Reached-IsExact A rows answers w r in
      let guarded = h.sound.guarded nas_ip in
      aggregate-IsOutcome nas_ip sess rest channel_map n (found w nas_ip) (unique w r nas_ip) ready
        (IsGuarded-IsApart nas_ip (w.dirs nas_ip) w.db guarded) channels new flow there
        (waiting-unmarked nas_ip (w.dirs nas_ip) w.db new guarded h.books.kept there)

  -- Let the service come to any state in which a flow file waits in a directory, by any steps of all
  -- workers with any faults, kills and restarts. If the next run of `Aggregate` on that directory
  -- meets no failure and no other worker's step, and a line of a flow file that is not in the
  -- checkpoint credits some client, then the run returns, leaves no flow file and no row of the
  -- checkpoint, and saves for each session of the list on each enabled channel one chunk with the
  -- sum of what all lines of all flow files of the directory and of `tmp` credit its address with,
  -- without the files of the checkpoint, and no other chunk for it. The id of that session is that
  -- of no other, no channel stands twice, no file has a line that is too long, no directory has the
  -- name of a flow file, and the driver does not report `sql.ErrNoRows` or `ErrNoData` for a
  -- query that selects rows into a slice.
  pub waiting-IsCredited :
      (w : Service) (nas_ip : Text) (sess : OnlineSession) (rest : List OnlineSession)
      (channel_map : ChannelMap) (n : Net) (new : Text)
      → Reached A w
      → NodupKeys channel_map
      → IsReady (w.dirs nas_ip)
      → is_flow_name new ≡ true
      → is_file (lookup new (w.dirs nas_ip).entries) ≡ true
      → is_empty (credits n (uncounted nas_ip (found w nas_ip))) ≡ false
      → IsCredited nas_ip n channel_map
          (uncounted nas_ip (found w nas_ip))
          (sess ∷ rest)
          (found w nas_ip)
          (aggregate healthy nas_ip (sess ∷ rest) channel_map n (found w nas_ip))
  waiting-IsCredited w nas_ip sess rest channel_map n new r channels ready flow there =
      let h = Reached-IsExact A rows answers w r in
      let guarded = h.sound.guarded nas_ip in
      aggregate-IsCredited nas_ip sess rest channel_map n (found w nas_ip) (unique w r nas_ip) ready
        (IsGuarded-IsApart nas_ip (w.dirs nas_ip) w.db guarded) channels new flow there
        (waiting-unmarked nas_ip (w.dirs nas_ip) w.db new guarded h.books.kept there)
