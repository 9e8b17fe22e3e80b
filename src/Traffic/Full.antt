-- ===== src/Traffic/Full.antt =====
-- Which channels a client of the traffic map has: the enabled ones, each once.
use mathlib.Core.Path.{subst}
use aggregator_demo.Base.{
  ℕ, ◌+◌, ◌≡◌, ◌≢◌, refl, ◌∙◌, Bool, true, false, Option, none, some, List, [], ◌∷◌, arith, ◌==◌,
  nat_eq, text_eq, Option-cases, Bool-cases, inl, inr,
}
use aggregator_demo.Base.Text.{Text}
use aggregator_demo.Base.Map.{
  Map, lookup, insert, get_or, NodupKeys, lookup-insert, insert-NodupKeys,
}
use aggregator_demo.Entity.{Traffic, FlowRecord}
use aggregator_demo.Traffic.{
  Net, ChannelMap, TrafficMap, FlowAccumulator, enabled, count_traffic, count_at,
  new_flow_accumulator, count, classify, add_record, accumulate_line,
}
use aggregator_demo.Traffic.Maps.{IsFull, create-IsFull}
use aggregator_demo.Traffic.Credit.{line_record}
use aggregator_demo.Traffic.Accumulate.{
  channel_map-accumulate_line, accumulate_lines, add_parsed, accumulate_line-record,
}

insert-IsFull :
    (cm : ChannelMap) (m : Map ℕ Traffic) (c : ℕ) (t : Traffic)
    → enabled cm c ≡ true
    → IsFull cm m
    → IsFull cm (insert c t m)
insert-IsFull cm m c t on f = record {
  channels = λ j. ground (arith, lookup-insert j c t m, f.channels j);
  once = insert-NodupKeys c t m f.once;
}

count_traffic-IsFull :
    (old : Map ℕ Traffic) (new : Traffic) (cm : ChannelMap) (id : ℕ)
    → NodupKeys cm
    → (old ≢ [] → IsFull cm old)
    → IsFull cm (count_traffic old new cm id)
unfolding count_traffic
count_traffic-IsFull [] new cm id u f = elim (Bool-cases (enabled cm id)) [
  | inl on ↦ rw on (insert-IsFull cm _ id new on (create-IsFull cm u))
  | inr off ↦ rw off (create-IsFull cm u)
]
count_traffic-IsFull (e ∷ old) new cm id u f = elim (Bool-cases (enabled cm id)) [
  | inl on ↦ rw on (insert-IsFull cm (e ∷ old) id _ on (f (λ p. cc)))
  | inr off ↦ rw off (f (λ p. cc))
]

-- Every client in the map has the enabled channels, each once.
pub record IsFullMap (cm : ChannelMap) (tm : TrafficMap) : Type 0 where
  pub at : (ip : Text) (m : Map ℕ Traffic) → lookup ip tm ≡ some m → IsFull cm m

pub record IsSound (a : FlowAccumulator) : Type 0 where
  pub unique : NodupKeys a.channel_map
  pub full : IsFullMap a.channel_map a.traffic_map

old-IsFull :
    (a : FlowAccumulator) (key : Text)
    → IsSound a
    → get_or key a.traffic_map [] ≢ []
    → IsFull a.channel_map (get_or key a.traffic_map [])
old-IsFull a key s h = elim (Option-cases (lookup key a.traffic_map)) [
  | inl e ↦ absurd (h (rw (e, get_or)))
  | inr (m, e) ↦ rw (e, get_or) (s.full.at key m e)
]

count_at-IsSound :
    (a : FlowAccumulator) (key : Text) (new : Traffic) (id : ℕ)
    → IsSound a
    → IsSound (count_at a key new id)
unfolding count_at
count_at-IsSound a key new id s =
    let next = count_traffic (get_or key a.traffic_map []) new a.channel_map id in
    let next_full =
      count_traffic-IsFull (get_or key a.traffic_map []) new a.channel_map id s.unique
        (old-IsFull a key s) in
    record {
      unique = s.unique;
      full = record {
        at = λ ip m e. elim (Bool-cases (ip == key)) [
          | inl p ↦
              subst (λ x. IsFull a.channel_map x)
                (ground (arith, lookup-insert ip key next a.traffic_map)) next_full
          | inr p ↦ s.full.at ip m (ground (arith, lookup-insert ip key next a.traffic_map))
        ];
      };
    }

module _ (n : Net) where
  count-IsSound :
      (a : FlowAccumulator) (r : FlowRecord) (s d : Bool) → IsSound a → IsSound (count n a r s d)
  unfolding count
  count-IsSound a r true true h = count_at-IsSound _ _ _ _ (count_at-IsSound _ _ _ _ h)
  count-IsSound a r true false h = count_at-IsSound _ _ _ _ h
  count-IsSound a r false true h = count_at-IsSound _ _ _ _ h
  count-IsSound a r false false h = h

  counted : FlowAccumulator → FlowRecord → Option (Bool × Bool) → FlowAccumulator
  counted a r none = record a { classify_err_count = a.classify_err_count + 1 }
  counted a r (some flags) = count n a r flags.0 flags.1

  counted-IsSound :
      (a : FlowAccumulator) (r : FlowRecord) (o : Option (Bool × Bool))
      → IsSound a
      → IsSound (counted a r o)
  unfolding counted
  counted-IsSound a r none h = record { unique = h.unique; full = h.full }
  counted-IsSound a r (some flags) h = count-IsSound a r flags.0 flags.1 h

  add_parsed-IsSound :
      (a : FlowAccumulator) (o : Option FlowRecord) → IsSound a → IsSound (add_parsed n a o)
  unfolding add_parsed add_record counted
  add_parsed-IsSound a none h = h
  add_parsed-IsSound a (some r) h =
      counted-IsSound (record a { parsed_records = a.parsed_records + 1 }) r (classify n r)
        (record { unique = h.unique; full = h.full })

  accumulate_lines-IsSound :
      (lines : List Text) (a : FlowAccumulator) → IsSound a → IsSound (accumulate_lines n a lines)
  unfolding accumulate_lines
  accumulate_lines-IsSound [] a h = h
  accumulate_lines-IsSound (line ∷ lines) a h =
      accumulate_lines-IsSound lines (accumulate_line n a line).0
        (rw (accumulate_line-record n a line) (add_parsed-IsSound a (line_record n line) h))

  channel_map-accumulate_lines :
      (lines : List Text) (a : FlowAccumulator)
      → (accumulate_lines n a lines).channel_map ≡ a.channel_map
  unfolding accumulate_lines
  channel_map-accumulate_lines [] a = refl
  channel_map-accumulate_lines (line ∷ lines) a =
      channel_map-accumulate_lines lines (accumulate_line n a line).0
      ∙ channel_map-accumulate_line n a line

  -- After any lines, each client of the traffic map has an entry for exactly the enabled
  -- channels, each once, if no channel stands twice in the channel map.
  pub accumulate_lines-IsFullMap :
      (cm : ChannelMap) (lines : List Text)
      → NodupKeys cm
      → IsFullMap cm (accumulate_lines n (new_flow_accumulator cm) lines).traffic_map
  accumulate_lines-IsFullMap cm lines u =
      let s = accumulate_lines-IsSound lines (new_flow_accumulator cm) (
        unfold new_flow_accumulator lookup in
        record { unique = u; full = record { at = λ ip m e. cc } }) in
      subst (λ x. IsFullMap x (accumulate_lines n (new_flow_accumulator cm) lines).traffic_map)
        (channel_map-accumulate_lines lines (new_flow_accumulator cm)
          ∙ (unfold new_flow_accumulator in refl))
        s.full
