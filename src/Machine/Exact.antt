-- ===== src/Machine/Exact.antt =====
-- Exactly once, with all workers at work at the same time.
use mathlib.Core.Path.{subst}
use aggregator_demo.Base.{◌≡◌, ◌≢◌, refl, sym, false, none, some, List, [], text_eq, contains}
use aggregator_demo.Base.Text.{Text}
use aggregator_demo.Base.Map.{set_at, set_at-same, set_at-other}
use aggregator_demo.Entity.{no_data, no_rows, OnlineSession}
use aggregator_demo.Traffic.{Net, ChannelMap}
use aggregator_demo.Database.{batch_row, row_eq}
use aggregator_demo.Storage.{Node, NasDir, place}
use aggregator_demo.Storage.Lookup.{tmp_has}
use aggregator_demo.Aggregator.Save.{Env}
use aggregator_demo.Aggregator.Worlds.{
  IsSound, IsSound-Guarded, Guarded-IsSound, IsSound-arrived, IsSound-empty, arrived,
}
use aggregator_demo.Machine.{start, advance_at, advance}
use aggregator_demo.Machine.Interleaved.{
  Service, NoneTwice, AreRead, all_chunks, moved, put, Move, arrives, moves, restarts, Reached,
  empty, next,
}
use aggregator_demo.Machine.Books.{Books}
use aggregator_demo.Machine.Fits.{Fits, Fits-same, Fits-entries}
use aggregator_demo.Machine.Steps.{advance_at-IsStepOf}

-- The invariant of the service.
pub record IsExact (w : Service) : Type 0 where
  pub sound : IsSound (record { dirs = w.dirs; db = w.db })
  pub fits : (j : Text) → Fits j w.db (w.dirs j) (w.points j)
  pub books : Books w.db w.saves

module _ (w : Service) (nas_ip : Text) (h : IsExact w) where
  IsExact-moved :
      (e : Env) (sessions : List OnlineSession) (channel_map : ChannelMap) (n : Net)
      → e.select_names ≢ some no_rows
      → e.select_names ≢ some no_data
      → IsExact (moved e nas_ip sessions channel_map n w)
  unfolding moved advance
  IsExact-moved e sessions channel_map n rows answers =
      let l = advance_at e nas_ip sessions channel_map n (w.points nas_ip) (w.dirs nas_ip) w.db in
      let s =
        advance_at-IsStepOf w.dirs nas_ip e sessions channel_map n rows answers (w.points nas_ip)
          (w.dirs nas_ip) w.db w.saves
          (Guarded-IsSound (record { dirs = w.dirs; db = w.db }) nas_ip h.sound) (h.fits nas_ip)
          h.books in
      record {
        sound = IsSound-Guarded w.dirs nas_ip l.dir l.db s.guarded;
        fits = λ j. elim (text_eq.dec j nas_ip) [
          | yes p ↦
              rw (set_at-same w.dirs nas_ip l.dir j p, set_at-same w.points nas_ip l.point j p)
                (subst (λ i. Fits i l.db l.dir l.point) (sym p) s.fits)
          | no p ↦
              rw (set_at-other w.dirs nas_ip l.dir j p, set_at-other w.points nas_ip l.point j p)
                (Fits-same j (w.points j) (w.dirs j) w.db l.db (s.elsewhere j p)
                  (λ f. s.grows (batch_row j f)) (h.fits j))
        ];
        books = s.books;
      }

  IsExact-put :
      (name : Text) (node : Node)
      → tmp_has name (w.dirs nas_ip) ≡ false
      → contains w.db.inserted (batch_row nas_ip name) ≡ false
      → IsExact (put w nas_ip name node)
  unfolding put
  IsExact-put name node k l =
      let d = w.dirs nas_ip in
      let d' : NasDir = record d { entries = place name node d.entries } in
      record {
        sound =
            unfold arrived in
            IsSound-arrived (record { dirs = w.dirs; db = w.db }) nas_ip name node k l h.sound;
        fits = λ j. elim (text_eq.dec j nas_ip) [
          | yes p ↦ rw (set_at-same w.dirs nas_ip d' j p) (
              subst (λ i. Fits i w.db d' (w.points i)) (sym p)
                (Fits-entries nas_ip (w.points nas_ip) (place name node d.entries) d w.db
                  (h.fits nas_ip)))
          | no p ↦ rw (set_at-other w.dirs nas_ip d' j p) (h.fits j)
        ];
        books = h.books;
      }

  IsExact-restart : IsExact (record w { points = set_at w.points nas_ip start })
  IsExact-restart = record {
    sound = h.sound;
    fits = λ j. elim (text_eq.dec j nas_ip) [
      | yes p ↦ rw (set_at-same w.points nas_ip start j p) tt
      | no p ↦ rw (set_at-other w.points nas_ip start j p) (h.fits j)
    ];
    books = h.books;
  }

IsExact-empty :
    (w : Service)
    → ((j : Text) → w.dirs j ≡ record { entries = []; tmp = none })
    → ((j : Text) → w.points j ≡ start)
    → w.db.inserted ≡ []
    → w.db.flow_batch ≡ []
    → w.db.chunk ≡ []
    → w.saves ≡ []
    → IsExact w
IsExact-empty w dirs points inserted flow_batch chunk saves = record {
  sound = IsSound-empty (record { dirs = w.dirs; db = w.db }) dirs inserted;
  fits = λ j. rw (points j) tt;
  books = record {
    kept = λ r k. absurd (cc (rw flow_batch at k));
    logged = λ j f k. absurd (cc (rw saves at k));
    read = λ j f k. absurd (cc (rw inserted at k));
    none_twice = rw saves tt;
    chunk = rw (saves, chunk) refl;
    reads = rw saves tt;
  };
}

-- What the driver may answer when the checkpoint is read: rows, no row, or an error of its own.
module _ (A : Env → Type 0) (rows : (e : Env) → A e → e.select_names ≢ some no_rows)
    (answers : (e : Env) → A e → e.select_names ≢ some no_data) where
  Move-IsExact : (w w' : Service) → Move A w w' → IsExact w → IsExact w'
  Move-IsExact w _ (arrives _ nas_ip name node k l) h = IsExact-put w nas_ip h name node k l
  Move-IsExact w _ (moves _ e nas_ip sessions channel_map n a) h =
      IsExact-moved w nas_ip h e sessions channel_map n (rows e a) (answers e a)
  Move-IsExact w _ (restarts _ nas_ip) h = IsExact-restart w nas_ip h

  pub Reached-IsExact : (w : Service) → Reached A w → IsExact w
  Reached-IsExact w (empty _ a b c d f g) = IsExact-empty w a b c d f g
  Reached-IsExact w (next v _ r s) = Move-IsExact v w s (Reached-IsExact v r)

  -- Start from directories without files, an empty checkpoint and an empty table of chunks, and let
  -- the workers of all directories work at the same time: their steps come in any order, each with
  -- any faults, workers are killed and restarted at any point, and new flow files arrive at any
  -- time. Then no file has been read for two saves that the database has applied; the table of
  -- chunks holds the chunks of the applied saves, in their order, and nothing else; and the chunks
  -- of each save are what `SiftTraffic` makes, for some sessions, channels and networks, of all
  -- lines of the files that were read for it, each of which was in `tmp`, and of no other file. The
  -- driver is taken not to report `sql.ErrNoRows`, nor the program's own `ErrNoData`, for a query
  -- that selects rows into a slice.
  pub exactly_once :
      (w : Service)
      → Reached A w
      → NoneTwice w.saves × (w.db.chunk ≡ all_chunks w.saves) × AreRead w.saves
  exactly_once w r =
      let h = Reached-IsExact w r in (h.books.none_twice, h.books.chunk, h.books.reads)
