-- ===== src/Traffic.antt =====
-- src/internal/usecase/traffic.go: lines of flow are summed by client address and channel
-- (`FlowAccumulator`), and the sums are tied to the online sessions (`SiftTraffic`).
pub mod Maps
pub mod Credit
pub mod Accumulate
pub mod Order
pub mod Verdict
pub mod Full
pub mod Sift
pub mod Ending
use aggregator_demo.Base.{
  ℕ, suc, ◌+◌, Bool, true, false, ◌||◌, Option, none, some, List, [], ◌∷◌, ◌++◌, ◌==◌, nat_eq,
  text_eq, if◌then◌else◌, length,
}
use aggregator_demo.Base.Text.{Text, has_infix, split}
use aggregator_demo.Base.Strconv.{atoi}
use aggregator_demo.Base.Map.{Map, lookup, insert, get_or}
use aggregator_demo.Entity.{
  Error, no_data, internal_error, undefined_ip_format, traffic_byte_parse, internal, external, Ip,
  FlowRecord, flow_header, OnlineSession, Chunk, new_chunk, Traffic, new_empty_traffic,
  new_traffic_download, new_traffic_upload, merge, Result, ok, err, Outcome, done, panic,
}

abbrev pub ChannelMap : Type 0
ChannelMap = Map ℕ Bool

-- map[user_ip]map[channel_id]Traffic
abbrev pub TrafficMap : Type 0
TrafficMap = Map Text (Map ℕ Traffic)

-- Addresses: `net.ParseIP` and `IP.String` of the standard library, and `Contains` of the
-- third-party `cidranger.Ranger`, where `none` is an error. Nothing is assumed of the three.
pub record Net : Type 0 where
  pub parse_ip : Text → Option Ip
  pub ip_string : Ip → Text
  pub contains : Ip → Option Bool

-- `channelMap[channelID]`
abbrev pub enabled : ChannelMap → ℕ → Bool
enabled channel_map id = get_or id channel_map false

-- The loop of `createNewEmptyTrafficMap`.
pub empty_from : Map ℕ Traffic → ChannelMap → Map ℕ Traffic
empty_from acc [] = acc
empty_from acc ((id, on) ∷ rest) =
    empty_from (if on then insert id new_empty_traffic acc else acc) rest

unfoldable pub create_new_empty_traffic_map : ChannelMap → Map ℕ Traffic
unfolding empty_from insert
create_new_empty_traffic_map = empty_from []

-- `CountTraffic`: `len(oldTraffic) != 0` is the second clause.
unfoldable pub count_traffic : Map ℕ Traffic → Traffic → ChannelMap → ℕ → Map ℕ Traffic
count_traffic [] new channel_map id =
    let fresh = create_new_empty_traffic_map channel_map in
    if enabled channel_map id then insert id new fresh else fresh
count_traffic (e ∷ old) new channel_map id =
    if enabled channel_map id
    then insert id (merge new (get_or id (e ∷ old) new_empty_traffic)) (e ∷ old)
    else e ∷ old

pub record FlowAccumulator : Type 0 where
  pub channel_map : ChannelMap
  pub traffic_map : TrafficMap
  pub parsed_records : ℕ
  pub classify_err_count : ℕ

unfoldable pub new_flow_accumulator : ChannelMap → FlowAccumulator
new_flow_accumulator channel_map = record {
  channel_map = channel_map;
  traffic_map = [];
  parsed_records = 0;
  classify_err_count = 0;
}

-- One assignment `a.trafficMap[key] = a.u.CountTraffic(a.trafficMap[key], …)`.
unfoldable pub count_at : FlowAccumulator → Text → Traffic → ℕ → FlowAccumulator
count_at a key new id = record a {
  traffic_map =
      insert key (count_traffic (get_or key a.traffic_map []) new a.channel_map id) a.traffic_map;
}

module _ (n : Net) where
  unfoldable pub parse_record : Text → Text → Text → Result FlowRecord
  parse_record byte_size_raw src_ip_raw dst_ip_raw = elim (n.parse_ip src_ip_raw) [
    | none ↦ err undefined_ip_format
    | some src_ip ↦ elim (n.parse_ip dst_ip_raw) [
      | none ↦ err undefined_ip_format
      | some dst_ip ↦ elim (atoi byte_size_raw) [
        | none ↦ err traffic_byte_parse
        | some byte_size ↦ ok (record { src_ip = src_ip; dst_ip = dst_ip; byte_size = byte_size })
      ]
    ]
  ]

  -- `count`, by the two flags
  unfoldable pub count : FlowAccumulator → FlowRecord → Bool → Bool → FlowAccumulator
  count a r true true =
      count_at (count_at a (n.ip_string r.src_ip) (new_traffic_download r.byte_size) internal)
        (n.ip_string r.dst_ip) (new_traffic_upload r.byte_size) internal
  count a r true false =
      count_at a (n.ip_string r.src_ip) (new_traffic_download r.byte_size) external
  count a r false true = count_at a (n.ip_string r.dst_ip) (new_traffic_upload r.byte_size) external
  count a r false false = a

  -- The two calls of `Contains`; the second is made only if the first gave no error.
  unfoldable pub classify : FlowRecord → Option (Bool × Bool)
  classify r = elim (n.contains r.src_ip) [
    | none ↦ none
    | some is_src ↦ elim (n.contains r.dst_ip) [ none ↦ none | some is_dst ↦ some (is_src, is_dst) ]
  ]

  unfoldable pub add_record : FlowAccumulator → Result FlowRecord → FlowAccumulator
  add_record a (err e) = a
  add_record a (ok r) =
      let b : FlowAccumulator = record a { parsed_records = a.parsed_records + 1 } in
      elim (classify r) [
        | none ↦ record b { classify_err_count = b.classify_err_count + 1 }
        | some flags ↦ count b r flags.0 flags.1
      ]

  unfoldable pub add_row : FlowAccumulator → List Text → FlowAccumulator
  add_row a (bytes ∷ src_ip ∷ dst_ip ∷ []) = add_record a (parse_record bytes src_ip dst_ip)
  add_row a _ = a

  -- `AccumulateLine`; its error is always nil.
  unfoldable pub accumulate_line : FlowAccumulator → Text → FlowAccumulator × Option Error
  accumulate_line a line =
      if has_infix line flow_header
      then (a, none)
      else if line == []
      then (a, none)
      else (add_row a (split b',' line), none)

-- `Result`
unfoldable pub result : FlowAccumulator → TrafficMap × Option Error
result a = (
  a.traffic_map,
  if length a.traffic_map == 0
      then if a.parsed_records == 0 || a.classify_err_count == a.parsed_records
        then some internal_error
        else some no_data
      else none,
)

-- The chunks of one session, one for each entry of its channel list.
unfoldable pub session_chunks : ℕ → Map ℕ Traffic → List Chunk
session_chunks sess_id [] = []
session_chunks sess_id ((id, t) ∷ rest) =
    new_chunk sess_id id t.download t.upload ∷ session_chunks sess_id rest

-- `trafficMap[sess.IP]`, or zeros for a session with no traffic.
unfoldable pub channel_list : ChannelMap → TrafficMap → Text → Map ℕ Traffic
channel_list channel_map traffic_map ip = elim (lookup ip traffic_map) [
  | none ↦ create_new_empty_traffic_map channel_map
  | some m ↦ m
]

unfoldable pub sift_loop : ChannelMap → TrafficMap → List OnlineSession → List Chunk
sift_loop channel_map traffic_map [] = []
sift_loop channel_map traffic_map (sess ∷ rest) =
    session_chunks sess.sess_id (channel_list channel_map traffic_map sess.ip)
    ++ sift_loop channel_map traffic_map rest

-- The message that is logged with `ErrNoData` reads `sessionList[0]`, which panics on an empty list.
unfoldable pub log_no_data : List OnlineSession → Outcome (List Chunk × Option Error)
log_no_data [] = panic
log_no_data (sess ∷ rest) = done ([], some no_data)

unfoldable pub sifted : List OnlineSession → List Chunk → Outcome (List Chunk × Option Error)
sifted sessions [] = log_no_data sessions
sifted sessions (c ∷ chunks) = done (c ∷ chunks, none)

-- `SiftTraffic`
unfoldable pub sift_traffic :
    ChannelMap → TrafficMap → List OnlineSession → Outcome (List Chunk × Option Error)
unfolding sifted log_no_data
sift_traffic channel_map traffic_map session_list =
    sifted session_list (sift_loop channel_map traffic_map session_list)
