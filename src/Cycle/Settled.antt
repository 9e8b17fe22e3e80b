-- ===== src/Cycle/Settled.antt =====
-- One cycle of `Start` for a directory whose worker meets no failure, whatever the others meet.
use mathlib.Core.Path.{subst}
use aggregator_demo.Base.{
  ◌≡◌, ◌≢◌, refl, sym, ◌∙◌, ap, true, false, Option, none, some, List, [], ◌∷◌, arith, text_eq,
  nat_eq, contains,
}
use aggregator_demo.Base.Text.{Text}
use aggregator_demo.Base.Map.{lookup, NodupKeys}
use aggregator_demo.Entity.{OnlineSession, ok}
use aggregator_demo.Traffic.{Net, ChannelMap}
use aggregator_demo.Traffic.Verdict.{verdict}
use aggregator_demo.Loaders.{SessionMap, send_channel_map, send_online_session_map}
use aggregator_demo.Database.{batch_row, row_eq}
use aggregator_demo.Storage.Lookup.{is_flow_name}
use aggregator_demo.Storage.Complete.{is_file}
use aggregator_demo.Storage.Ready.{IsReady}
use aggregator_demo.Flow.Pending.{IsApart}
use aggregator_demo.Aggregator.Stages.{State, aggregate}
use aggregator_demo.Aggregator.Healthy.{healthy}
use aggregator_demo.Aggregator.Ends.{outcome_of}
use aggregator_demo.Aggregator.Credits.{uncounted, IsOutcome, aggregate-IsOutcome}
use aggregator_demo.Aggregator.Worlds.{World}
use aggregator_demo.Cycle.{
  CycleEnv, Running, caught, worked, handed, with_sessions, dispatch, with_maps, with_names,
  observe_cycle, read_flow_dir_names, start, generated,
}
use aggregator_demo.Cycle.Others.{
  caught-own, caught-db, Distinct, IsSame, IsSame-refl, IsSame-trans, worked-IsSame,
  dispatch-IsSame,
}
use aggregator_demo.Cycle.Finished.{
  Finished, state_in, Ends-FinishedAs, is_marked-rows, uncounted-IsSame, IsSame-Finished,
}

-- A directory into which a flow file has come that is not in the checkpoint. No entry stands twice, no
-- flow file stands in both directories, no file has a line that is too long, and no directory has the
-- name of a flow file.
pub record HasNew (nas : Text) (w : World) : Type 0 where
  pub unique : NodupKeys (w.dirs nas).entries
  pub ready : IsReady (w.dirs nas)
  pub apart : IsApart (w.dirs nas)
  pub new : Text
  pub flow : is_flow_name new ≡ true
  pub there : is_file (lookup new (w.dirs nas).entries) ≡ true
  pub unmarked : contains (w.db).flow_batch (batch_row nas new) ≡ false

module _ (e : CycleEnv) (n : Net) (channel_map : ChannelMap) (session_map : SessionMap)
    (nas : Text) where
  module _ (sess : OnlineSession) (rest : List OnlineSession) (w : World)
      (well : e.worker_env nas ≡ healthy) (channels : NodupKeys channel_map)
      (h : HasNew nas w) where
    -- The own worker begins behind some others.
    own-IsOutcome :
        (v : World) (s : State)
        → IsSame nas w v
        → s.dir ≡ v.dirs nas
        → s.db ≡ v.db
        → IsOutcome nas n channel_map
            (uncounted nas (state_in nas w))
            (sess ∷ rest)
            s
            (aggregate healthy nas (sess ∷ rest) channel_map n s)
    own-IsOutcome v s a p q =
        let d = p ∙ a.dir in
        subst
          (λ lines.
            IsOutcome nas n channel_map lines (sess ∷ rest) s
              (aggregate healthy nas (sess ∷ rest) channel_map n s))
          (uncounted-IsSame nas w v s a p q)
          (aggregate-IsOutcome nas sess rest channel_map n s (rw d h.unique) (rw d h.ready)
            (rw d h.apart) channels h.new h.flow (rw d h.there)
            (ap (λ m. m h.new) (is_marked-rows nas w.db s.db (rw q a.rows)) ∙ h.unmarked))

    worked-Finished :
        (c : Running)
        → IsSame nas w c.world
        → Finished nas n channel_map
            (sess ∷ rest)
            w
            (worked e n channel_map nas (sess ∷ rest) c).world
    unfolding worked
    worked-Finished c a =
        let s : State = record { dir = (c.world).dirs nas; db = (c.world).db; events = c.events } in
        let r = aggregate healthy nas (sess ∷ rest) channel_map n s in
        let o = own-IsOutcome c.world s a refl refl in
        rw well (record {
          chunks = o.chunks;
          credits = o.credits;
          ends =
              Ends-FinishedAs nas o.chunks w c.world (caught nas c.world r).world s r.0
                (outcome_of true (verdict n (uncounted nas (state_in nas w))) o.chunks) a refl refl
                (caught-own nas c.world r) (caught-db nas c.world r) o.settles.ends;
        })

    module _ (kept : (j : Text) → e.is_cancelled j ≡ false)
        (known : lookup nas session_map ≡ some (sess ∷ rest)) where
      own-Finished :
          (more : Running → Running) (c : Running)
          → IsSame nas w c.world
          → ((c : Running) → IsSame nas c.world (more c).world)
          → Finished nas n channel_map
              (sess ∷ rest)
              w
              (with_sessions e n more channel_map nas (lookup nas session_map) c).world
      unfolding with_sessions handed
      own-Finished more c a k =
          let c' = worked e n channel_map nas (sess ∷ rest) c in
          rw (known, kept nas)
            (IsSame-Finished w c'.world (more c').world (k c') (worked-Finished c a))

      other-Finished :
          (more : Running → Running) (j : Text) (o : Option (List OnlineSession)) (c : Running)
          → nas ≢ j
          → IsSame nas w c.world
          → ((c : Running)
              → IsSame nas w c.world
              → Finished nas n channel_map (sess ∷ rest) w (more c).world)
          → Finished nas n channel_map
              (sess ∷ rest)
              w
              (with_sessions e n more channel_map j o c).world
      unfolding with_sessions handed
      other-Finished more j none c q a k = k c a
      other-Finished more j (some sessions) c q a k = rw (kept j) (
          k (worked e n channel_map j sessions c)
            (IsSame-trans a (worked-IsSame e n channel_map session_map nas j sessions c q)))

      dispatch-Finished :
          (names : List Text) (c : Running)
          → Distinct names
          → contains names nas ≡ true
          → IsSame nas w c.world
          → Finished nas n channel_map
              (sess ∷ rest)
              w
              (dispatch e n channel_map session_map names c).world
      unfolding dispatch
      dispatch-Finished [] c u l a = absurd (cc l)
      dispatch-Finished (j ∷ names) c u l a = elim (text_eq.dec nas j) [
        | yes q ↦
            subst
              (λ x.
                Finished nas n channel_map (sess ∷ rest) w
                  (with_sessions e n (dispatch e n channel_map session_map names) channel_map x
                    (lookup x session_map) c).world)
              q
              (own-Finished (dispatch e n channel_map session_map names) c a (
                dispatch-IsSame e n channel_map session_map nas names
                  (subst (λ x. contains names x ≡ false) (sym q) u.0)))
        | no q ↦
            other-Finished (dispatch e n channel_map session_map names) j (lookup j session_map) c q
              a (λ c' a'. dispatch-Finished names c' u.1 (ground arith) a')
      ]

-- The world in which the loop over the directories of a cycle begins.
abbrev pub begun : CycleEnv → Running → World
begun e c = record { dirs = generated e.at_default e.fgen (c.world).dirs; db = (c.world).db }

-- One cycle, and a directory `nas` for which nothing fails: the root is read and lists it, the two
-- maps are loaded, no channel stands twice, it has a session, its worker meets no failure, and the
-- context does not end. A flow file has come into it that is not in the checkpoint, from a collector or
-- from the generator of the cycle. No entry stands twice, no flow file stands in the directory and in
-- `tmp`, no file has a line that is too long, and no directory has the name of a flow file. Then the
-- cycle ends for it as the lines say of all its flow files that are not in the checkpoint. If no line is
-- recognized, all its flow files wait in `tmp` and its rows of the checkpoint are as they were. In
-- any other case its files and its rows are gone; and if the lines credit some client and give a
-- chunk, the chunks that they credit, one for each session on each enabled channel if its id is that
-- of no other, are saved among the chunks of the cycle. What fails or panics in the workers of the other
-- directories, and what earlier cycles have left in this one, does not matter.
pub start-Finished :
    (e : CycleEnv) (n : Net) (c : Running) (nas : Text) (sess : OnlineSession)
    (rest : List OnlineSession) (names : List Text) (channel_map : ChannelMap)
    (session_map : SessionMap)
    → read_flow_dir_names e.read_roots e.roots ≡ ok names
    → Distinct names
    → contains names nas ≡ true
    → send_channel_map e.begin_channels e.query_channels (c.world).db ≡ some channel_map
    → send_online_session_map e.begin_sessions e.query_sessions (c.world).db ≡ some session_map
    → NodupKeys channel_map
    → lookup nas session_map ≡ some (sess ∷ rest)
    → e.worker_env nas ≡ healthy
    → ((j : Text) → e.is_cancelled j ≡ false)
    → HasNew nas (begun e c)
    → Finished nas n channel_map (sess ∷ rest) (begun e c) (start e n c).world
unfolding start with_names with_maps observe_cycle
start-Finished e n c nas sess rest names channel_map session_map r u listed p q channels known well
      kept h =
    rw (r, p, q)
      (dispatch-Finished e n channel_map session_map nas sess rest (begun e c) well channels h kept
        known names _ u listed (IsSame-refl nas (begun e c)))
