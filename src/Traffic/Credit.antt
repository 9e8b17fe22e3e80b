-- ===== src/Traffic/Credit.antt =====
-- What one line of flow is worth, said without maps and without the accumulator: each end of the
-- connection that lies in the internal network is credited with the bytes of the line.
use aggregator_demo.Base.{
  ℕ, ◌<◌, ◌≡◌, refl, ◌∙◌, Bool, ◌&&◌, Option, none, some, List, [], ◌∷◌, ◌++◌, arith, ◌==◌, nat_eq,
  text_eq, if◌then◌else◌, All, inl, inr, Bool-cases,
}
use aggregator_demo.Base.Word.{word, add64, add64-lt}
use aggregator_demo.Base.Text.{Text, has_infix, split}
use aggregator_demo.Base.Strconv.{atoi, atoi-lt}
use aggregator_demo.Entity.{
  internal, external, FlowRecord, flow_header, Traffic, new_empty_traffic, new_traffic_download,
  new_traffic_upload, merge,
}
use aggregator_demo.Traffic.{Net}
use aggregator_demo.Traffic.Maps.{IsTraffic}

-- `traffic` goes to the client `key` on channel `channel`.
pub record Credit : Type 0 where
  pub key : Text
  pub channel : ℕ
  pub traffic : Traffic

-- The sum of the credits of one client on one channel.
unfoldable pub total : Text → ℕ → List Credit → Traffic
total key c [] = new_empty_traffic
total key c (x ∷ xs) =
    if x.key == key && x.channel == c then merge x.traffic (total key c xs) else total key c xs

module _ (n : Net) where
  unfoldable pub row_record : List Text → Option FlowRecord
  row_record (bytes ∷ src ∷ dst ∷ []) = elim (n.parse_ip src) [
    | none ↦ none
    | some s ↦ elim (n.parse_ip dst) [
      | none ↦ none
      | some d ↦ elim (atoi bytes) [
        | none ↦ none
        | some size ↦ some (record { src_ip = s; dst_ip = d; byte_size = size })
      ]
    ]
  ]
  row_record _ = none

  -- The record of a line: no header, three fields, two addresses and a number.
  unfoldable pub line_record : Text → Option FlowRecord
  unfolding row_record
  line_record line = if has_infix line flow_header then none else row_record (split b',' line)

  abbrev pub channel_of : Bool → ℕ
  channel_of both = if both then internal else external

  unfoldable pub record_credits : FlowRecord → List Credit
  record_credits r = elim (n.contains r.src_ip) [
    | none ↦ []
    | some is_src ↦ elim (n.contains r.dst_ip) [
      | none ↦ []
      | some is_dst ↦
          (if is_src
            then (record {
              key = n.ip_string r.src_ip;
              channel = channel_of (is_src && is_dst);
              traffic = new_traffic_download r.byte_size;
            })
              ∷ []
            else [])
          ++ (if is_dst
              then (record {
                key = n.ip_string r.dst_ip;
                channel = channel_of (is_src && is_dst);
                traffic = new_traffic_upload r.byte_size;
              })
                ∷ []
              else [])
    ]
  ]

  unfoldable pub credited : Option FlowRecord → List Credit
  unfolding record_credits
  credited none = []
  credited (some r) = record_credits r

  unfoldable pub line_credits : Text → List Credit
  unfolding credited line_record
  line_credits line = credited (line_record line)

  unfoldable pub credits : List Text → List Credit
  credits [] = []
  credits (line ∷ lines) = line_credits line ++ credits lines

abbrev pub IsCredit : Credit → Type 0
IsCredit x = IsTraffic x.traffic

-- The credits added to a sum one after the other, as the accumulator meets them.
unfoldable pub add_credits : Text → ℕ → Traffic → List Credit → Traffic
add_credits key c t [] = t
add_credits key c t (x ∷ xs) =
    add_credits key c (if x.key == key && x.channel == c then merge x.traffic t else t) xs

module _ (key : Text) (c : ℕ) where
  pub total-IsTraffic : (xs : List Credit) → IsTraffic (total key c xs)
  unfolding total
  total-IsTraffic [] = omega arith
  total-IsTraffic (x ∷ xs) =
      let ih = total-IsTraffic xs in
      ground (
        arith,
        add64-lt x.traffic.download (total key c xs).download,
        add64-lt x.traffic.upload (total key c xs).upload,
      )

  -- Adding one by one gives the sum.
  pub add_credits-total :
      (xs : List Credit) (t : Traffic)
      → All IsCredit xs
      → IsTraffic t
      → add_credits key c t xs ≡ merge (total key c xs) t
  unfolding add_credits total add64
  add_credits-total [] t h k = ground arith
  add_credits-total (x ∷ xs) t h k = elim (Bool-cases (x.key == key && x.channel == c)) [
    | inl e ↦ rw e (add_credits-total xs (merge x.traffic t) h.1 (omega arith) ∙ ground arith)
    | inr e ↦ rw e (add_credits-total xs t h.1 k)
  ]

  pub add_credits-append :
      (xs ys : List Credit) (t : Traffic)
      → add_credits key c t (xs ++ ys) ≡ add_credits key c (add_credits key c t xs) ys
  unfolding add_credits
  add_credits-append [] ys t = refl
  add_credits-append (x ∷ xs) ys t = add_credits-append xs ys _

module _ (n : Net) where
  row_record-lt :
      (row : List Text) (r : FlowRecord) → row_record n row ≡ some r → r.byte_size < word
  unfolding row_record
  row_record-lt (bytes ∷ src ∷ dst ∷ []) r h = ground (arith, atoi-lt bytes r.byte_size)
  row_record-lt _ r h = cc

  pub line_record-lt :
      (line : Text) (r : FlowRecord) → line_record n line ≡ some r → r.byte_size < word
  unfolding line_record
  line_record-lt line r h = ground (arith, row_record-lt (split b',' line) r)

  record_credits-IsCredit :
      (r : FlowRecord) → r.byte_size < word → All IsCredit (record_credits n r)
  unfolding record_credits
  record_credits-IsCredit r h = ground arith

  credited-IsCredit :
      (o : Option FlowRecord)
      → ((r : FlowRecord) → o ≡ some r → r.byte_size < word)
      → All IsCredit (credited n o)
  unfolding credited
  credited-IsCredit none h = tt
  credited-IsCredit (some r) h = record_credits-IsCredit r (h r refl)

  pub line_credits-IsCredit : (line : Text) → All IsCredit (line_credits n line)
  unfolding line_credits
  line_credits-IsCredit line =
      credited-IsCredit (line_record n line) (λ r h. line_record-lt line r h)
