-- ===== src/Machine/Sorted.antt =====
-- Whatever happens, the listing of a directory of the service is sorted, without a name twice.
use aggregator_demo.Base.{List, text_eq}
use aggregator_demo.Base.Text.{Text}
use aggregator_demo.Base.Map.{set_at, set_at-same, set_at-other}
use aggregator_demo.Entity.{OnlineSession}
use aggregator_demo.Traffic.{Net, ChannelMap, new_flow_accumulator, accumulate_line}
use aggregator_demo.Database.{Db}
use aggregator_demo.Storage.{NasDir}
use aggregator_demo.Storage.Sorted.{IsSorted, IsSorted-place}
use aggregator_demo.Storage.Stream.{remove_old-Cleaned}
use aggregator_demo.Flow.Moves.{prepare_and_stream-keeps}
use aggregator_demo.Aggregator.Save.{Env}
use aggregator_demo.Machine.{
  Point, start, loaded, saving, cleaning, cleaned, stopped, advance_at, advance,
}
use aggregator_demo.Machine.Interleaved.{
  Service, moved, put, Move, arrives, moves, restarts, Reached, empty, next,
}

module _ (e : Env) (nas_ip : Text) (sessions : List OnlineSession) (channel_map : ChannelMap)
    (n : Net) where
  advance_at-IsSorted :
      (p : Point) (d : NasDir) (db : Db)
      → IsSorted d.entries
      → IsSorted (advance_at e nas_ip sessions channel_map n p d db).dir.entries
  unfolding advance_at
  advance_at-IsSorted start d db h = h
  advance_at-IsSorted (loaded committed) d db h =
      prepare_and_stream-keeps e.files (accumulate_line n) (λ x. IsSorted x.entries)
        (λ x y m. m.sorted) committed (new_flow_accumulator channel_map) d h
  advance_at-IsSorted (saving fresh names chunks) d db h = h
  advance_at-IsSorted (cleaning reason) d db h = rw (remove_old-Cleaned e.files d).entries h
  advance_at-IsSorted cleaned d db h = h
  advance_at-IsSorted stopped d db h = h

abbrev AreSorted : (Text → NasDir) → Type 0
AreSorted dirs = (j : Text) → IsSorted (dirs j).entries

AreSorted-set_at :
    (dirs : Text → NasDir) (nas_ip : Text) (d : NasDir)
    → IsSorted d.entries
    → AreSorted dirs
    → AreSorted (set_at dirs nas_ip d)
AreSorted-set_at dirs nas_ip d h k j = elim (text_eq.dec j nas_ip) [
  | yes p ↦ rw (set_at-same dirs nas_ip d j p) h
  | no p ↦ rw (set_at-other dirs nas_ip d j p) (k j)
]

module _ (A : Env → Type 0) where
  Move-AreSorted : (w w' : Service) → Move A w w' → AreSorted w.dirs → AreSorted w'.dirs
  unfolding moved put advance
  Move-AreSorted w _ (arrives _ nas_ip name node p q) h =
      AreSorted-set_at w.dirs nas_ip _ (IsSorted-place name node (w.dirs nas_ip).entries (h nas_ip))
        h
  Move-AreSorted w _ (moves _ e nas_ip sessions channel_map n a) h =
      AreSorted-set_at w.dirs nas_ip _
        (advance_at-IsSorted e nas_ip sessions channel_map n (w.points nas_ip) (w.dirs nas_ip) w.db
          (h nas_ip))
        h
  Move-AreSorted w _ (restarts _ nas_ip) h = h

  -- In any state that the service reaches, each directory lists its entries in the order of
  -- their names.
  pub Reached-AreSorted : (w : Service) → Reached A w → (j : Text) → IsSorted (w.dirs j).entries
  Reached-AreSorted w (empty _ dirs a b c d f) j = rw (dirs j) tt
  Reached-AreSorted w (next v _ r s) j = Move-AreSorted v w s (Reached-AreSorted v r) j
