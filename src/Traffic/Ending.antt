-- ===== src/Traffic/Ending.antt =====
-- How `SiftTraffic` ends: with chunks, with `ErrNoData`, or by a panic.
use aggregator_demo.Base.{
  ℕ, ◌≡◌, ◌≢◌, ◌↔◌, refl, Bool, true, false, ◌||◌, none, some, List, [], ◌∷◌, ◌++◌, arith, nat_eq,
  text_eq, if◌then◌else◌, any, Bool-cases, inl, inr,
}
use aggregator_demo.Base.Map.{Map, lookup, NodupKeys}
use aggregator_demo.Entity.{no_data, OnlineSession, Chunk, Traffic, done, panic}
use aggregator_demo.Traffic.{
  ChannelMap, TrafficMap, enabled, session_chunks, channel_list, sift_loop, log_no_data, sifted,
  sift_traffic,
}
use aggregator_demo.Traffic.Maps.{IsFull}
use aggregator_demo.Traffic.Full.{IsFullMap}
use aggregator_demo.Traffic.Sift.{channel_list-IsFull}

unfoldable pub any_enabled : ChannelMap → Bool
any_enabled = any (λ e. e.1)

enabled-any_enabled : (cm : ChannelMap) (c : ℕ) → enabled cm c ≡ true → any_enabled cm ≡ true
unfolding any_enabled lookup
enabled-any_enabled [] c h = cc
enabled-any_enabled ((id, on) ∷ cm) c h = ground (arith, enabled-any_enabled cm c)

-- Some enabled channel, where there is one.
any_enabled-channel :
    (cm : ChannelMap) → NodupKeys cm → any_enabled cm ≡ true → (c : ℕ) × (enabled cm c ≡ true)
unfolding any_enabled lookup
any_enabled-channel [] u h = absurd (cc)
any_enabled-channel ((id, true) ∷ cm) u h = (id, ground arith)
any_enabled-channel ((id, false) ∷ cm) (fresh, u) h =
    let (c, on) = any_enabled-channel cm u h in (c, ground arith)

has_chunks : List Chunk → Bool
has_chunks [] = false
has_chunks (x ∷ xs) = true

sifted-chunks :
    (sess : OnlineSession) (rest : List OnlineSession) (chunks : List Chunk) {b : Bool}
    → has_chunks chunks ≡ b
    → sifted (sess ∷ rest) chunks ≡ (if b then done (chunks, none) else done ([], some no_data))
unfolding has_chunks sifted log_no_data
sifted-chunks sess rest [] h = ground arith
sifted-chunks sess rest (c ∷ chunks) h = ground arith

sifted-ne-panic :
    (sess : OnlineSession) (rest : List OnlineSession) (chunks : List Chunk)
    → sifted (sess ∷ rest) chunks ≢ panic
unfolding sifted log_no_data
sifted-ne-panic sess rest [] h = cc
sifted-ne-panic sess rest (c ∷ chunks) h = cc

has_chunks-session_chunks :
    (cm : ChannelMap) (s : ℕ) (m : Map ℕ Traffic)
    → NodupKeys cm
    → IsFull cm m
    → has_chunks (session_chunks s m) ≡ any_enabled cm
unfolding session_chunks has_chunks lookup
has_chunks-session_chunks cm s [] u f = elim (Bool-cases (any_enabled cm)) [
  | inl on ↦ let (c, e) = any_enabled-channel cm u on in ground (arith, f.channels c)
  | inr off ↦ rw off
]
has_chunks-session_chunks cm s ((c, t) ∷ m) u f =
    ground (arith, f.channels c, enabled-any_enabled cm c)

has_chunks-append : (xs ys : List Chunk) → has_chunks (xs ++ ys) ≡ (has_chunks xs || has_chunks ys)
unfolding has_chunks
has_chunks-append [] ys = refl
has_chunks-append (x ∷ xs) ys = refl

module _ (cm : ChannelMap) (tm : TrafficMap) (unique : NodupKeys cm) (full : IsFullMap cm tm) where
  has_chunks-sift_loop :
      (sess : OnlineSession) (rest : List OnlineSession)
      → has_chunks (sift_loop cm tm (sess ∷ rest)) ≡ any_enabled cm
  unfolding sift_loop has_chunks
  has_chunks-sift_loop sess [] =
      let m = channel_list cm tm sess.ip in
      ground (
        arith,
        has_chunks-append (session_chunks sess.sess_id m) [],
        has_chunks-session_chunks cm sess.sess_id m unique
            (channel_list-IsFull cm tm unique full sess.ip),
      )
  has_chunks-sift_loop sess (next ∷ rest) =
      let m = channel_list cm tm sess.ip in
      ground (
        arith,
        has_chunks-append (session_chunks sess.sess_id m) (sift_loop cm tm (next ∷ rest)),
        has_chunks-session_chunks cm sess.sess_id m unique
            (channel_list-IsFull cm tm unique full sess.ip),
        has_chunks-sift_loop next rest,
      )

  -- With at least one session `SiftTraffic` returns: the chunks and no error if some channel is
  -- enabled, and `ErrNoData` with no chunk if none is. No channel stands twice in the channel
  -- map, and the traffic map has the enabled channels for each client.
  pub sift_traffic-outcome :
      (sess : OnlineSession) (rest : List OnlineSession)
      → sift_traffic cm tm (sess ∷ rest) ≡ (
          if any_enabled cm
          then done (sift_loop cm tm (sess ∷ rest), none)
          else done ([], some no_data))
  unfolding sift_traffic
  sift_traffic-outcome sess rest = sifted-chunks sess rest _ (has_chunks-sift_loop sess rest)

-- `SiftTraffic` panics exactly on an empty session list.
pub sift_traffic-panic :
    (cm : ChannelMap) (tm : TrafficMap) (sessions : List OnlineSession)
    → (sift_traffic cm tm sessions ≡ panic) ↔ (sessions ≡ [])
unfolding sift_traffic sift_loop
sift_traffic-panic cm tm [] = (λ p. refl, λ p. refl)
sift_traffic-panic cm tm (sess ∷ rest) = (λ p. absurd (sifted-ne-panic sess rest _ p), λ p. cc)
