-- ===== src/Traffic/Accumulate.antt =====
-- The accumulator against the credits: after any lines, the traffic of every client on every
-- channel is the sum of its credits if the channel is enabled, and zero if not.
use aggregator_demo.Base.{
  ℕ, ◌<◌, ◌≡◌, refl, ◌∙◌, Bool, true, false, ◌&&◌, Option, none, some, List, [], ◌∷◌, arith,
  All-append, ◌==◌, nat_eq, text_eq, if◌then◌else◌, All, Option-cases, inl, inr, ◌+◌,
}
use aggregator_demo.Base.Word.{word}
use aggregator_demo.Base.Text.{Text, has_infix, split}
use aggregator_demo.Base.Map.{lookup, get_or, lookup-insert}
use aggregator_demo.Entity.{
  internal, external, FlowRecord, Traffic, new_empty_traffic, new_traffic_download,
  new_traffic_upload, merge, ok,
}
use aggregator_demo.Traffic.{
  Net, ChannelMap, FlowAccumulator, enabled, new_flow_accumulator, count_traffic, count_at,
  parse_record, count, classify, add_record, add_row, accumulate_line,
}
use aggregator_demo.Traffic.Maps.{traffic_at, IsTraffic, merge-empty, traffic_at-count_traffic}
use aggregator_demo.Traffic.Credit.{
  total, row_record, line_record, line_record-lt, record_credits, credited, line_credits, credits,
  add_credits, add_credits-append, add_credits-total, line_credits-IsCredit, total-IsTraffic,
  IsCredit,
}

-- What the accumulator holds for a client on a channel.
abbrev pub client_traffic : FlowAccumulator → Text → ℕ → Traffic
client_traffic a ip c = traffic_at (get_or ip a.traffic_map []) c

-- The lines of a file, or of several, one after the other.
unfoldable pub accumulate_lines : Net → FlowAccumulator → List Text → FlowAccumulator
accumulate_lines n a [] = a
accumulate_lines n a (line ∷ lines) = accumulate_lines n (accumulate_line n a line).0 lines

module _ (n : Net) where
  -- What the accumulator does with the record of a line, if the line has one.
  unfoldable pub add_parsed : FlowAccumulator → Option FlowRecord → FlowAccumulator
  add_parsed a none = a
  add_parsed a (some r) = add_record n a (ok r)

  add_row-record :
      (a : FlowAccumulator) (row : List Text) → add_row n a row ≡ add_parsed a (row_record n row)
  unfolding add_row parse_record row_record add_record add_parsed
  add_row-record a (bytes ∷ src ∷ dst ∷ []) = ground arith
  add_row-record a _ = refl

  -- The test for an empty line changes nothing: such a line has no three fields.
  pub accumulate_line-record :
      (a : FlowAccumulator) (line : Text)
      → (accumulate_line n a line).0 ≡ add_parsed a (line_record n line)
  unfolding accumulate_line line_record
  accumulate_line-record a [] = unfold add_parsed has_infix row_record split text_eq in refl
  accumulate_line-record a (ch ∷ line) =
      unfold add_parsed in ground (arith, add_row-record a (split b',' (ch ∷ line)))

  channel_map-add_parsed :
      (a : FlowAccumulator) (o : Option FlowRecord) → (add_parsed a o).channel_map ≡ a.channel_map
  unfolding add_parsed add_record count count_at
  channel_map-add_parsed a none = refl
  channel_map-add_parsed a (some r) = ground arith

  pub channel_map-accumulate_line :
      (a : FlowAccumulator) (line : Text) → (accumulate_line n a line).0.channel_map ≡ a.channel_map
  channel_map-accumulate_line a line =
      rw (accumulate_line-record a line) (channel_map-add_parsed a (line_record n line))

module _ (ip : Text) (c : ℕ) where
  client_traffic-count_at :
      (a : FlowAccumulator) (key : Text) (new : Traffic) (id : ℕ)
      → IsTraffic new
      → client_traffic (count_at a key new id) ip c ≡ (
          if enabled a.channel_map c
          then (if key == ip && id == c
              then merge new (client_traffic a ip c)
              else client_traffic a ip c)
          else client_traffic a ip c)
  unfolding count_at
  client_traffic-count_at a key new id h = ground (
    arith,
    lookup-insert ip key (count_traffic (get_or key a.traffic_map []) new a.channel_map id)
        a.traffic_map,
    traffic_at-count_traffic (get_or key a.traffic_map []) new a.channel_map id c h,
  )

  channel_map-count_at :
      (a : FlowAccumulator) (key : Text) (new : Traffic) (id : ℕ)
      → (count_at a key new id).channel_map ≡ a.channel_map
  unfolding count_at
  channel_map-count_at a key new id = refl

  -- `count`, by where the two ends lie.
  client_traffic-count :
      (n : Net) (a : FlowAccumulator) (r : FlowRecord) (is_src is_dst : Bool)
      → r.byte_size < word
      → n.contains r.src_ip ≡ some is_src
      → n.contains r.dst_ip ≡ some is_dst
      → client_traffic (count n a r is_src is_dst) ip c ≡ (
          if enabled a.channel_map c
          then add_credits ip c (client_traffic a ip c) (record_credits n r)
          else client_traffic a ip c)
  unfolding count record_credits add_credits
  client_traffic-count n a r true true h p q =
      let src = n.ip_string r.src_ip in
      let dst = n.ip_string r.dst_ip in
      let down = new_traffic_download r.byte_size in
      (ground (
        arith,
        client_traffic-count_at a src down internal (omega arith),
        client_traffic-count_at (count_at a src down internal) dst (new_traffic_upload r.byte_size)
            internal (omega arith),
        channel_map-count_at a src down internal,
      ))
  client_traffic-count n a r true false h p q =
      (ground (
        arith,
        client_traffic-count_at a (n.ip_string r.src_ip) (new_traffic_download r.byte_size) external
            (omega arith),
      ))
  client_traffic-count n a r false true h p q =
      (ground (
        arith,
        client_traffic-count_at a (n.ip_string r.dst_ip) (new_traffic_upload r.byte_size) external
            (omega arith),
      ))
  client_traffic-count n a r false false h p q = ground arith

  -- One record that parsed.
  client_traffic-add_record :
      (n : Net) (a : FlowAccumulator) (r : FlowRecord)
      → r.byte_size < word
      → client_traffic (add_record n a (ok r)) ip c ≡ (
          if enabled a.channel_map c
          then add_credits ip c (client_traffic a ip c) (record_credits n r)
          else client_traffic a ip c)
  unfolding add_record classify
  client_traffic-add_record n a r h = elim (Option-cases (n.contains r.src_ip)) [
    | inl e ↦ unfold record_credits add_credits in ground arith
    | inr (s, e) ↦ elim (Option-cases (n.contains r.dst_ip)) [
      | inl f ↦ unfold record_credits add_credits in ground arith
      | inr (d, f) ↦
          let b : FlowAccumulator = record a { parsed_records = a.parsed_records + 1 } in
          ground (arith, client_traffic-count n b r s d h e f)
    ]
  ]

  client_traffic-add_parsed :
      (n : Net) (a : FlowAccumulator) (o : Option FlowRecord)
      → ((r : FlowRecord) → o ≡ some r → r.byte_size < word)
      → client_traffic (add_parsed n a o) ip c ≡ (
          if enabled a.channel_map c
          then add_credits ip c (client_traffic a ip c) (credited n o)
          else client_traffic a ip c)
  unfolding credited add_credits add_parsed
  client_traffic-add_parsed n a none h = ground arith
  client_traffic-add_parsed n a (some r) h = client_traffic-add_record n a r (h r refl)

  -- One line.
  client_traffic-accumulate_line :
      (n : Net) (a : FlowAccumulator) (line : Text)
      → client_traffic (accumulate_line n a line).0 ip c ≡ (
          if enabled a.channel_map c
          then add_credits ip c (client_traffic a ip c) (line_credits n line)
          else client_traffic a ip c)
  unfolding line_credits
  client_traffic-accumulate_line n a line =
      rw (accumulate_line-record n a line)
        (client_traffic-add_parsed n a (line_record n line) (line_record-lt n line))

  -- Any lines, from any state of the accumulator.
  client_traffic-accumulate_lines :
      (n : Net) (lines : List Text) (a : FlowAccumulator)
      → client_traffic (accumulate_lines n a lines) ip c ≡ (
          if enabled a.channel_map c
          then add_credits ip c (client_traffic a ip c) (credits n lines)
          else client_traffic a ip c)
  unfolding accumulate_lines credits add_credits
  client_traffic-accumulate_lines n [] a = ground arith
  client_traffic-accumulate_lines n (line ∷ lines) a =
      client_traffic-accumulate_lines n lines (accumulate_line n a line).0
      ∙ rw (channel_map-accumulate_line n a line) (
          ground (
            arith,
            client_traffic-accumulate_line n a line,
            add_credits-append ip c (line_credits n line) (credits n lines) (client_traffic a ip c),
          ))

credits-IsCredit : (n : Net) (lines : List Text) → All IsCredit (credits n lines)
unfolding credits
credits-IsCredit n [] = tt
credits-IsCredit n (line ∷ lines) =
    All-append IsCredit (line_credits n line) (credits n lines) (line_credits-IsCredit n line)
      (credits-IsCredit n lines)

-- After any lines, a client has on every enabled channel exactly the sum of its credits, and
-- nothing on a channel that is not enabled. Sums wrap at 64 bits, as the program's do.
pub accumulate_lines-total :
    (n : Net) (cm : ChannelMap) (lines : List Text) (ip : Text) (c : ℕ)
    → client_traffic (accumulate_lines n (new_flow_accumulator cm) lines) ip c
      ≡ (if enabled cm c then total ip c (credits n lines) else new_empty_traffic)
unfolding new_flow_accumulator lookup
accumulate_lines-total n cm lines ip c =
    client_traffic-accumulate_lines ip c n lines (new_flow_accumulator cm)
    ∙ ground (
      arith,
      add_credits-total ip c (credits n lines) new_empty_traffic (credits-IsCredit n lines)
          (omega arith),
      merge-empty (total ip c (credits n lines)) (total-IsTraffic ip c (credits n lines)),
    )
