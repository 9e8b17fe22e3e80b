-- ===== src/Traffic/Sift.antt =====
-- `SiftTraffic`: every online session gets one chunk for every enabled channel.
use aggregator_demo.Base.{
  ℕ, ◌≡◌, ◌≢◌, refl, ◌∙◌, ◌&&◌, Option, none, some, List, [], ◌∷◌, ◌++◌, arith, ◌==◌, nat_eq,
  text_eq, if◌then◌else◌, All, select, Option-cases, inl, inr,
}
use aggregator_demo.Base.Text.{Text}
use aggregator_demo.Base.Map.{Map, lookup, get_or, NodupKeys}
use aggregator_demo.Entity.{OnlineSession, Chunk, new_chunk, Traffic}
use aggregator_demo.Traffic.{
  Net, ChannelMap, TrafficMap, enabled, new_flow_accumulator, session_chunks, channel_list,
  sift_loop,
}
use aggregator_demo.Traffic.Maps.{traffic_at, IsFull, create-IsFull, traffic_at-create}
use aggregator_demo.Traffic.Full.{IsFullMap, accumulate_lines-IsFullMap}
use aggregator_demo.Traffic.Credit.{total, credits}
use aggregator_demo.Traffic.Accumulate.{accumulate_lines, accumulate_lines-total}

-- The chunks of a session on a channel.
abbrev pub chunks_for : ℕ → ℕ → List Chunk → List Chunk
chunks_for sess_id c = select (λ k. k.sess_id == sess_id && k.channel_id == c)

one_chunk : ℕ → ℕ → Option Traffic → List Chunk
one_chunk s c none = []
one_chunk s c (some t) = new_chunk s c t.download t.upload ∷ []

chunks_for-append :
    (s c : ℕ) (xs ys : List Chunk)
    → chunks_for s c (xs ++ ys) ≡ chunks_for s c xs ++ chunks_for s c ys
chunks_for-append s c [] ys = refl
chunks_for-append s c (x ∷ xs) ys = ground (arith, chunks_for-append s c xs ys)

chunks_for-session_chunks :
    (s c : ℕ) (m : Map ℕ Traffic)
    → NodupKeys m
    → chunks_for s c (session_chunks s m) ≡ one_chunk s c (lookup c m)
unfolding session_chunks one_chunk lookup
chunks_for-session_chunks s c [] u = refl
chunks_for-session_chunks s c ((id, t) ∷ m) (fresh, u) =
    ground (arith, chunks_for-session_chunks s c m u)

chunks_for-other :
    (s q c : ℕ) (m : Map ℕ Traffic) → q ≢ s → chunks_for s c (session_chunks q m) ≡ []
unfolding session_chunks
chunks_for-other s q c [] h = refl
chunks_for-other s q c ((id, t) ∷ m) h = ground (arith, chunks_for-other s q c m h)

module _ (cm : ChannelMap) (tm : TrafficMap) (unique : NodupKeys cm) (full : IsFullMap cm tm) where
  pub channel_list-IsFull : (ip : Text) → IsFull cm (channel_list cm tm ip)
  unfolding channel_list
  channel_list-IsFull ip = elim (Option-cases (lookup ip tm)) [
    | inl e ↦ rw (e, channel_list) (create-IsFull cm unique)
    | inr (m, e) ↦ rw (e, channel_list) (full.at ip m e)
  ]

  traffic_at-channel_list :
      (ip : Text) (c : ℕ) → traffic_at (channel_list cm tm ip) c ≡ traffic_at (get_or ip tm []) c
  unfolding channel_list lookup
  traffic_at-channel_list ip c = ground (arith, traffic_at-create cm c)

  chunks_for-others :
      (s c : ℕ) (sessions : List OnlineSession)
      → All (λ x. x.sess_id ≢ s) sessions
      → chunks_for s c (sift_loop cm tm sessions) ≡ []
  unfolding sift_loop
  chunks_for-others s c [] h = refl
  chunks_for-others s c (x ∷ rest) h =
      chunks_for-append s c (session_chunks x.sess_id (channel_list cm tm x.ip))
        (sift_loop cm tm rest)
      ∙ rw (chunks_for-other s x.sess_id c (channel_list cm tm x.ip) h.0)
          (chunks_for-others s c rest h.1)

  one_chunk-lookup :
      (s c : ℕ) (m : Map ℕ Traffic)
      → IsFull cm m
      → one_chunk s c (lookup c m) ≡ (
          if enabled cm c
          then new_chunk s c (traffic_at m c).download (traffic_at m c).upload ∷ []
          else [])
  unfolding one_chunk
  one_chunk-lookup s c m f = ground (arith, f.channels c)

  -- A session whose id no other online session has gets one chunk on each enabled channel, with
  -- the traffic of its address there, and none on any other channel.
  pub chunks_for-sift_loop :
      (before after : List OnlineSession) (sess : OnlineSession) (c : ℕ)
      → All (λ x. x.sess_id ≢ sess.sess_id) before
      → All (λ x. x.sess_id ≢ sess.sess_id) after
      → chunks_for sess.sess_id c (sift_loop cm tm (before ++ sess ∷ after)) ≡ (
          let t = traffic_at (get_or sess.ip tm []) c in
          if enabled cm c then new_chunk sess.sess_id c t.download t.upload ∷ [] else [])
  unfolding sift_loop
  chunks_for-sift_loop [] after sess c hb ha =
      let m = channel_list cm tm sess.ip in
      ground (
        arith,
        chunks_for-append sess.sess_id c (session_chunks sess.sess_id m) (sift_loop cm tm after),
        chunks_for-others sess.sess_id c after ha,
        chunks_for-session_chunks sess.sess_id c m (channel_list-IsFull sess.ip).once,
        one_chunk-lookup sess.sess_id c m (channel_list-IsFull sess.ip),
        traffic_at-channel_list sess.ip c,
      )
  chunks_for-sift_loop (x ∷ before) after sess c hb ha =
      chunks_for-append sess.sess_id c (session_chunks x.sess_id (channel_list cm tm x.ip))
        (sift_loop cm tm (before ++ sess ∷ after))
      ∙ rw (chunks_for-other sess.sess_id x.sess_id c (channel_list cm tm x.ip) hb.0)
          (chunks_for-sift_loop before after sess c hb.1 ha)

-- From lines to chunks: sifting what was accumulated gives an online session whose id no other
-- session of the list has, on each enabled channel, exactly one chunk with the sum of the
-- credits of its address, and no chunk on any other channel. No channel stands twice in the
-- channel map.
pub chunks_for-accumulated :
    (n : Net) (cm : ChannelMap) (lines : List Text) (before after : List OnlineSession)
    (sess : OnlineSession) (c : ℕ)
    → NodupKeys cm
    → All (λ x. x.sess_id ≢ sess.sess_id) before
    → All (λ x. x.sess_id ≢ sess.sess_id) after
    → chunks_for sess.sess_id c (
        sift_loop cm
          (accumulate_lines n (new_flow_accumulator cm) lines).traffic_map
          (before ++ sess ∷ after))
      ≡ (let t = total sess.ip c (credits n lines) in
          if enabled cm c then new_chunk sess.sess_id c t.download t.upload ∷ [] else [])
chunks_for-accumulated n cm lines before after sess c u hb ha = ground (
  arith,
  chunks_for-sift_loop cm (accumulate_lines n (new_flow_accumulator cm) lines).traffic_map u
      (accumulate_lines-IsFullMap n cm lines u) before after sess c hb ha,
  accumulate_lines-total n cm lines sess.ip c,
)
