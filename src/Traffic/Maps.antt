-- ===== src/Traffic/Maps.antt =====
-- What `CountTraffic` does to the traffic of each channel, and which channels a map has.
use aggregator_demo.Base.{
  ℕ, ◌<◌, ◌≡◌, refl, ◌∙◌, ◌&&◌, ◌||◌, [], ◌∷◌, arith, ◌==◌, nat_eq, if◌then◌else◌,
}
use aggregator_demo.Base.Word.{word, add64}
use aggregator_demo.Base.Map.{Map, lookup, get_or, has, NodupKeys, lookup-insert, insert-NodupKeys}
use aggregator_demo.Entity.{Traffic, new_empty_traffic, merge}
use aggregator_demo.Traffic.{
  ChannelMap, enabled, empty_from, create_new_empty_traffic_map, count_traffic,
}

-- The traffic of a channel, zero where the map has no entry.
abbrev pub traffic_at : Map ℕ Traffic → ℕ → Traffic
traffic_at m c = get_or c m new_empty_traffic

-- Both counters are 64-bit patterns.
abbrev pub IsTraffic : Traffic → Type 0
IsTraffic t = (t.download < word) × (t.upload < word)

pub merge-empty : (t : Traffic) → IsTraffic t → merge t new_empty_traffic ≡ t
unfolding add64
merge-empty t h = ground arith

traffic_at-empty_from :
    (cm : ChannelMap) (acc : Map ℕ Traffic) (c : ℕ)
    → ((j : ℕ) → traffic_at acc j ≡ new_empty_traffic)
    → traffic_at (empty_from acc cm) c ≡ new_empty_traffic
unfolding empty_from
traffic_at-empty_from [] acc c h = h c
traffic_at-empty_from ((id, on) ∷ rest) acc c h =
    traffic_at-empty_from rest _ c
      (λ j. ground (arith, h j, lookup-insert j id new_empty_traffic acc))

pub traffic_at-create :
    (cm : ChannelMap) (c : ℕ) → traffic_at (create_new_empty_traffic_map cm) c ≡ new_empty_traffic
unfolding create_new_empty_traffic_map lookup
traffic_at-create cm c = traffic_at-empty_from cm [] c (λ j. refl)

pub traffic_at-count_traffic :
    (old : Map ℕ Traffic) (new : Traffic) (cm : ChannelMap) (id c : ℕ)
    → IsTraffic new
    → traffic_at (count_traffic old new cm id) c
      ≡ (if c == id && enabled cm id then merge new (traffic_at old c) else traffic_at old c)
unfolding count_traffic lookup
traffic_at-count_traffic [] new cm id c h = ground (
  arith,
  lookup-insert c id new (create_new_empty_traffic_map cm),
  traffic_at-create cm c,
  merge-empty new h,
)
traffic_at-count_traffic (e ∷ old) new cm id c h =
    ground (arith, lookup-insert c id (merge new (get_or id (e ∷ old) new_empty_traffic)) (e ∷ old))

has-empty_from :
    (cm : ChannelMap) (acc : Map ℕ Traffic) (c : ℕ)
    → NodupKeys cm
    → has c (empty_from acc cm) ≡ (has c acc || enabled cm c)
unfolding empty_from lookup
has-empty_from [] acc c u = ground arith
has-empty_from ((id, on) ∷ rest) acc c (fresh, u) =
    has-empty_from rest _ c u ∙ ground (arith, lookup-insert c id new_empty_traffic acc)

-- The channels of a map are the enabled channels, each once.
pub record IsFull (cm : ChannelMap) (m : Map ℕ Traffic) : Type 0 where
  pub channels : (c : ℕ) → has c m ≡ enabled cm c
  pub once : NodupKeys m

empty_from-NodupKeys :
    (cm : ChannelMap) (acc : Map ℕ Traffic) → NodupKeys acc → NodupKeys (empty_from acc cm)
unfolding empty_from
empty_from-NodupKeys [] acc u = u
empty_from-NodupKeys ((id, on) ∷ rest) acc u =
    empty_from-NodupKeys rest _ (ground (arith, insert-NodupKeys id new_empty_traffic acc u))

pub create-IsFull : (cm : ChannelMap) → NodupKeys cm → IsFull cm (create_new_empty_traffic_map cm)
unfolding create_new_empty_traffic_map lookup
create-IsFull cm u = record {
  channels = λ c. has-empty_from cm [] c u;
  once = empty_from-NodupKeys cm [] tt;
}
