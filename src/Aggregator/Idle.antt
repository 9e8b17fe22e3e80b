-- ===== src/Aggregator/Idle.antt =====
-- A run of `Aggregate` on a directory without files, while `tmp` may hold files of an earlier run.
use aggregator_demo.Base.{
  ◌≡◌, refl, ◌∙◌, Bool, Option-cases, inl, inr, Option, none, some, List, [],
}
use aggregator_demo.Base.Text.{Text}
use aggregator_demo.Base.Map.{Map}
use aggregator_demo.Entity.{Error, no_data, internal_error, OnlineSession, Result, ok, err}
use aggregator_demo.Traffic.{
  Net, ChannelMap, FlowAccumulator, new_flow_accumulator, accumulate_line,
}
use aggregator_demo.Storage.{NasDir, Faults, file_names, read_file_names_in_flow_dir, Streamed}
use aggregator_demo.Flow.{by_names, failed, prepare_and_stream}
use aggregator_demo.Aggregator.Save.{Env, load_names}
use aggregator_demo.Aggregator.Stages.{State, nas_failed, after_stream, after_load, aggregate}

-- An error, and the directory as it was.
abbrev IsRefused {ℓ} : {S : Type ℓ} → NasDir → NasDir × Streamed S → Type 0
IsRefused d r = (r.0 ≡ d) × ((x : Error) × (r.1.error ≡ some x))

module _ {ℓ} {S : Type ℓ} (f : Faults) (on_line : S → Text → S × Option Error)
    (skip : Map Text Bool) (s : S) (d : NasDir) where
  by_names-IsRefused :
      (r : Result (List Text)) (x : Error) → r ≡ err x → IsRefused d (by_names f on_line skip s d r)
  unfolding by_names failed
  by_names-IsRefused (ok names) x h = absurd (cc h)
  by_names-IsRefused (err no_data) x h = (refl, (no_data, refl))
  by_names-IsRefused (err y) x h = (refl, (internal_error, refl))

  read-err : file_names d.entries ≡ [] → (x : Error) × (read_file_names_in_flow_dir f d ≡ err x)
  unfolding read_file_names_in_flow_dir
  read-err h = elim (Option-cases f.read_dir) [
    | inl p ↦ rw (p, h) (no_data, refl)
    | inr (x, p) ↦ rw p (x, refl)
  ]

  prepare_and_stream-IsRefused :
      file_names d.entries ≡ [] → IsRefused d (prepare_and_stream f on_line skip s d)
  unfolding prepare_and_stream
  prepare_and_stream-IsRefused h =
      let r = read-err h in by_names-IsRefused (read_file_names_in_flow_dir f d) r.0 r.1

module _ (e : Env) (nas_ip : Text) (sessions : List OnlineSession) (channel_map : ChannelMap)
    (n : Net) where
  -- The directory and the database are as they were.
  abbrev IsSame : State → State → Type 0
  IsSame s t = (t.dir ≡ s.dir) × (t.db ≡ s.db)

  after_stream-IsSame :
      (committed : Map Text Bool) (s : State) (r : Streamed FlowAccumulator) (o : Option Error)
      (x : Error)
      → o ≡ some x
      → IsSame s (after_stream e nas_ip sessions channel_map committed s r o).0
  unfolding after_stream nas_failed
  after_stream-IsSame committed s r none x h = absurd (cc h)
  after_stream-IsSame committed s r (some y) x h = (refl, refl)

  after_load-IsSame :
      (s : State) (r : Result (Map Text Bool))
      → file_names s.dir.entries ≡ []
      → IsSame s (after_load e nas_ip sessions channel_map n s r).0
  unfolding after_load nas_failed
  after_load-IsSame s (err x) h = (refl, refl)
  after_load-IsSame s (ok committed) h =
      let from = new_flow_accumulator channel_map in
      let r = prepare_and_stream e.files (accumulate_line n) committed from s.dir in
      let q = prepare_and_stream-IsRefused e.files (accumulate_line n) committed from s.dir h in
      let t = after_stream-IsSame committed (record s { dir = r.0 }) r.1 r.1.error q.1.0 q.1.1 in
      (t.0 ∙ q.0, t.1)

  -- If a directory has no file outside `tmp`, a run of `Aggregate` does nothing to the directory, to
  -- `tmp` and to the database, whatever `tmp` holds: files that an earlier run has left there, counted
  -- or not, are neither counted nor removed before the next file comes.
  pub aggregate-idle :
      (s : State)
      → file_names s.dir.entries ≡ []
      → let t = (aggregate e nas_ip sessions channel_map n s).0 in (t.dir ≡ s.dir) × (t.db ≡ s.db)
  unfolding aggregate
  aggregate-idle s h = after_load-IsSame s (load_names e nas_ip s.db) h
