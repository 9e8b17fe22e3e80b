-- ===== src/Flowgen/Counted.antt =====
-- What the accumulator counts of a generated file.
use aggregator_demo.Base.{
  ℕ, ◌/◌, ◌<◌, ◌≡◌, refl, Bool, true, false, some, [], ◌∷◌, ◌++◌, arith, nat_eq, text_eq, contains,
  contains-append,
}
use aggregator_demo.Base.Word.{word}
use aggregator_demo.Base.Text.{Text, split, has_infix}
use aggregator_demo.Base.Text.Fields.{split-absent, split-field, has_infix-absent}
use aggregator_demo.Base.Strconv.Decimal.{itoa, atoi-itoa, itoa-absent}
use aggregator_demo.Entity.{external, flow_header, new_traffic_download, new_traffic_upload, Ip}
use aggregator_demo.Traffic.{Net}
use aggregator_demo.Traffic.Credit.{
  line_credits, credited, line_record, row_record, record_credits, Credit,
}
use aggregator_demo.Flowgen.{max_byte_size, Params, Draw, bytes_transfered, flow_line}

-- A text without a comma, a number sign and a line feed.
abbrev pub IsPlain : Text → Type 0
IsPlain t = (contains t b',' ≡ false) × (contains t b'#' ≡ false) × (contains t b'\n' ≡ false)

-- An internal client whose text is that of its address, and an external address.
pub record IsClient (n : Net) (t : Text) : Type 0 where
  pub ip : Ip
  pub parsed : n.parse_ip t ≡ some ip
  pub printed : n.ip_string ip ≡ t
  pub inside : n.contains ip ≡ some true
  pub plain : IsPlain t

pub record IsOutside (n : Net) (t : Text) : Type 0 where
  pub ip : Ip
  pub parsed : n.parse_ip t ≡ some ip
  pub outside : n.contains ip ≡ some false
  pub plain : IsPlain t

fields-split :
    (a b c : Text)
    → contains a b',' ≡ false
    → contains b b',' ≡ false
    → contains c b',' ≡ false
    → split b',' (a ++ b',' ∷ (b ++ b',' ∷ c)) ≡ a ∷ b ∷ c ∷ []
fields-split a b c h k l =
    rw (split-field b',' a (b ++ b',' ∷ c) h, split-field b',' b c k, split-absent b',' c l) refl

fields-no_header :
    (a b c : Text)
    → contains a b'#' ≡ false
    → contains b b'#' ≡ false
    → contains c b'#' ≡ false
    → has_infix (a ++ b',' ∷ (b ++ b',' ∷ c)) flow_header ≡ false
unfolding nat_eq
fields-no_header a b c h k l = has_infix-absent b'#' _ (a ++ b',' ∷ (b ++ b',' ∷ c)) (
    ground
      (arith, contains-append a (b',' ∷ (b ++ b',' ∷ c)) b'#', contains-append b (b',' ∷ c) b'#'))

fields-one_line :
    (a b c : Text)
    → contains a b'\n' ≡ false
    → contains b b'\n' ≡ false
    → contains c b'\n' ≡ false
    → contains (a ++ b',' ∷ (b ++ b',' ∷ c)) b'\n' ≡ false
unfolding nat_eq
fields-one_line a b c h k l =
    ground
      (arith, contains-append a (b',' ∷ (b ++ b',' ∷ c)) b'\n', contains-append b (b',' ∷ c) b'\n')

module _ (n : Net) where
  -- The record of a line with a number and two addresses.
  line_record-fields :
      (x : ℕ) (b c : Text) (bip cip : Ip)
      → x < word / 2
      → n.parse_ip b ≡ some bip
      → n.parse_ip c ≡ some cip
      → IsPlain b
      → IsPlain c
      → line_record n (itoa x ++ b',' ∷ (b ++ b',' ∷ c))
        ≡ some (record { src_ip = bip; dst_ip = cip; byte_size = x })
  unfolding line_record row_record nat_eq
  line_record-fields x b c bip cip h p q k l =
      rw
        (
          fields-no_header (itoa x) b c (itoa-absent x b'#' refl) k.1 l.1,
          fields-split (itoa x) b c (itoa-absent x b',' refl) k.0 l.0,
          row_record,
          p,
          q,
          atoi-itoa x (omega (arith, h)),
        )
        refl

  module _ (p : Params) (client : IsClient n p.client_ip) where
    -- The line is worth its bytes to the client: as download when the client comes first.
    unfoldable pub worth : Draw → Bool → Credit
    worth d true = record {
      key = p.client_ip;
      channel = external;
      traffic = new_traffic_download (bytes_transfered d);
    }
    worth d false = record {
      key = p.client_ip;
      channel = external;
      traffic = new_traffic_upload (bytes_transfered d);
    }

    pub line_credits-worth :
        (d : Draw) (even : Bool)
        → d.number < max_byte_size
        → IsOutside n d.address
        → line_credits n (flow_line p d even) ≡ worth d even ∷ []
    unfolding line_credits credited record_credits flow_line worth
    line_credits-worth d true h o =
        rw
          (
            line_record-fields (bytes_transfered d) p.client_ip d.address client.ip o.ip
                (omega (arith, h)) client.parsed o.parsed client.plain o.plain,
            credited,
            record_credits,
            client.inside,
            o.outside,
            client.printed,
          )
          refl
    line_credits-worth d false h o =
        rw
          (
            line_record-fields (bytes_transfered d) d.address p.client_ip o.ip client.ip
                (omega (arith, h)) o.parsed client.parsed o.plain client.plain,
            credited,
            record_credits,
            o.outside,
            client.inside,
            client.printed,
          )
          refl

    pub flow_line-one_line :
        (d : Draw) (even : Bool) → IsPlain d.address → contains (flow_line p d even) b'\n' ≡ false
    unfolding flow_line
    flow_line-one_line d true o =
        fields-one_line (itoa (bytes_transfered d)) p.client_ip d.address
          (itoa-absent (bytes_transfered d) b'\n' refl) client.plain.2 o.2
    flow_line-one_line d false o =
        fields-one_line (itoa (bytes_transfered d)) d.address p.client_ip
          (itoa-absent (bytes_transfered d) b'\n' refl) o.2 client.plain.2
