-- ===== src/Loaders/Laws.antt =====
-- What the maps hold that the loaders build.
use mathlib.Core.List.{append-nil, append_assoc}
use aggregator_demo.Base.{
  ap, ℕ, ◌≡◌, refl, ◌∙◌, Bool, Option, none, some, List, [], ◌∷◌, ◌++◌, arith, ◌==◌, nat_eq,
  text_eq, if◌then◌else◌, select,
}
use aggregator_demo.Base.Text.{Text}
use aggregator_demo.Base.Map.{lookup, insert, get_or, lookup-insert, NodupKeys, insert-NodupKeys}
use aggregator_demo.Entity.{Channel, OnlineSession}
use aggregator_demo.Traffic.{ChannelMap}
use aggregator_demo.Loaders.{channel_map_of, SessionMap, session_map_of}

channel_map_of-NodupKeys :
    (m : ChannelMap) (channels : List Channel) → NodupKeys m → NodupKeys (channel_map_of m channels)
unfolding channel_map_of
channel_map_of-NodupKeys m [] h = h
channel_map_of-NodupKeys m (ch ∷ channels) h =
    channel_map_of-NodupKeys (insert ch.id ch.enabled m) channels
      (insert-NodupKeys ch.id ch.enabled m h)

-- The value that the last row of a channel gives, or else this one.
abbrev pub last_enabled : ℕ → List Channel → Option Bool → Option Bool
last_enabled id [] o = o
last_enabled id (ch ∷ channels) o =
    last_enabled id channels (if id == ch.id then some ch.enabled else o)

lookup-channel_map_of :
    (id : ℕ) (channels : List Channel) (m : ChannelMap)
    → lookup id (channel_map_of m channels) ≡ last_enabled id channels (lookup id m)
unfolding channel_map_of
lookup-channel_map_of id [] m = refl
lookup-channel_map_of id (ch ∷ channels) m =
    lookup-channel_map_of id channels (insert ch.id ch.enabled m)
    ∙ ap (last_enabled id channels) (lookup-insert id ch.id ch.enabled m)

get_or-session_map_of :
    (nas_ip : Text) (sessions : List OnlineSession) (m : SessionMap)
    → get_or nas_ip (session_map_of m sessions) []
      ≡ get_or nas_ip m [] ++ select (λ s. nas_ip == s.nas_ip) sessions
unfolding session_map_of
get_or-session_map_of nas_ip [] m = ground (arith, append-nil (get_or nas_ip m []))
get_or-session_map_of nas_ip (s ∷ sessions) m = ground (
  arith,
  get_or-session_map_of nas_ip sessions (insert s.nas_ip (get_or s.nas_ip m [] ++ s ∷ []) m),
  lookup-insert nas_ip s.nas_ip (get_or s.nas_ip m [] ++ s ∷ []) m,
  append_assoc (get_or nas_ip m []) (s ∷ []) (select (λ s. nas_ip == s.nas_ip) sessions),
)

-- The channel map has each id once, with the value of the last row of the channel, and no other id.
pub channel_map_of-last_enabled :
    (channels : List Channel) (id : ℕ)
    → NodupKeys (channel_map_of [] channels)
      × (lookup id (channel_map_of [] channels) ≡ last_enabled id channels none)
channel_map_of-last_enabled channels id = (
  channel_map_of-NodupKeys [] channels tt,
  lookup-channel_map_of id channels [] ∙ (unfold lookup in refl),
)

-- The session map gives for each `nas_ip` the rows of it, in their order.
pub session_map_of-select :
    (sessions : List OnlineSession) (nas_ip : Text)
    → get_or nas_ip (session_map_of [] sessions) [] ≡ select (λ s. nas_ip == s.nas_ip) sessions
session_map_of-select sessions nas_ip =
    get_or-session_map_of nas_ip sessions [] ∙ (unfold lookup in refl)
