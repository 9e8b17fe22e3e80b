-- ===== src/Flowgen/Saved.antt =====
-- A generated file, from `Generate` to the chunk that `Aggregate` saves: the chunk that `Start` logs as the
-- expected one when `FLOWGEN` is "true".
use mathlib.Core.List.{append-nil}
use aggregator_demo.Base.{
  ℕ, suc, ◌<◌, ◌≤◌, ◌≡◌, ◌≢◌, refl, ap, ◌∙◌, true, false, Bool-cases, inl, inr, none, List, [], ◌∷◌,
  ◌++◌, arith, nat_eq, text_eq, contains, All,
}
use aggregator_demo.Base.Text.{Text, split}
use aggregator_demo.Base.Map.{lookup, NodupKeys}
use aggregator_demo.Entity.{external, flow_header, OnlineSession, Chunk, new_chunk, Traffic}
use aggregator_demo.Traffic.{Net, ChannelMap, enabled}
use aggregator_demo.Traffic.Credit.{Credit, total, credits}
use aggregator_demo.Traffic.Sift.{chunks_for}
use aggregator_demo.Traffic.Verdict.{is_empty}
use aggregator_demo.Database.{Db, batch_row, row_eq}
use aggregator_demo.Storage.{file}
use aggregator_demo.Storage.Scan.{scan}
use aggregator_demo.Storage.Lookup.{is_flow_name}
use aggregator_demo.Storage.Ready.{scan_error}
use aggregator_demo.Storage.Lines.{file_lines, flow_lines, node_lines}
use aggregator_demo.Aggregator.Stages.{State, aggregate}
use aggregator_demo.Aggregator.Healthy.{healthy}
use aggregator_demo.Aggregator.Credits.{uncounted, aggregate-IsCredited}
use aggregator_demo.Flowgen.{record_count, max_byte_size, Params, Draw, header, generate}
use aggregator_demo.Flowgen.Counted.{IsClient, IsOutside}
use aggregator_demo.Flowgen.Totals.{down, up, from_zero, records-sum, file-split, file-total, lines}
use aggregator_demo.Flowgen.Lines.{IsShort, yielded-credits, file-AreLines}

-- A directory with one file.
abbrev pub with_one : Text → Text → Db → State
with_one name bytes db = record {
  dir = record { entries = (name, file bytes) ∷ []; tmp = none };
  db = db;
  events = [];
}

uncounted-with_one :
    (nas_ip name bytes : Text) (db : Db)
    → is_flow_name name ≡ true
    → contains db.flow_batch (batch_row nas_ip name) ≡ false
    → uncounted nas_ip (with_one name bytes db) ≡ file_lines bytes
unfolding flow_lines node_lines
uncounted-with_one nas_ip name bytes db flow out = rw (append-nil, append-nil) (rw (flow, out) refl)

total-is_empty :
    (key : Text) (c : ℕ) (xs : List Credit) → is_empty xs ≡ true → (total key c xs).download ≡ 0
unfolding total
total-is_empty key c [] h = refl
total-is_empty key c (x ∷ xs) h = absurd (cc h)

module _ (n : Net) (p : Params) (client : IsClient n p.client_ip) (draws : ℕ → Draw)
    (peers : (i : ℕ) → IsOutside n (draws i).address)
    (numbers : (i : ℕ) → (draws i).number < max_byte_size) (client_short : IsShort p.client_ip)
    (peers_short : (i : ℕ) → IsShort (draws i).address) where
  bytes : Text
  bytes = (generate p draws none none).0.flow_bytes

  bytes-split : split b'\n' bytes ≡ flow_header ∷ lines p draws record_count 0
  unfolding bytes generate
  bytes-split =
      rw (bytes, generate, records-sum p draws record_count 0 header)
        (file-split n p client draws peers numbers record_count)

  whole :
      (credits n (file_lines bytes) ≡ credits n (flow_header ∷ lines p draws record_count 0))
      × (scan_error (scan bytes none) ≡ none)
  unfolding file_lines scan
  whole = rw bytes-split (
      yielded-credits n (flow_header ∷ lines p draws record_count 0)
        (file-AreLines p draws client_short peers_short record_count))

  file_lines-total :
      let g = (generate p draws none none).0 in
      total p.client_ip external (credits n (file_lines bytes))
      ≡ record { download = g.download; upload = g.upload }
  unfolding generate
  file_lines-total =
      ap (total p.client_ip external) whole.0
      ∙ file-total n p client draws peers numbers record_count (omega arith)
      ∙ rw (records-sum p draws record_count 0 header) (
          from_zero n p client draws peers numbers (down p draws record_count 0)
            (up p draws record_count 0))

  -- The first record goes to the client.
  down_positive : (k : ℕ) → 1 ≤ down p draws (suc k) 0
  unfolding nat_eq
  down_positive k = omega arith

  some_credit : is_empty (credits n (file_lines bytes)) ≡ false
  some_credit = elim (Bool-cases (is_empty (credits n (file_lines bytes)))) [
    | inl e ↦ absurd (
        omega (
          arith,
          total-is_empty p.client_ip external (credits n (file_lines bytes)) e,
          ap (λ (t : Traffic). t.download)
              (ap (total p.client_ip external) whole.0
                ∙ file-total n p client draws peers numbers record_count (omega arith)),
          down_positive 99,
        ))
    | inr e ↦ e
  ]

  module _ (nas_ip name : Text) (db : Db) (sess : OnlineSession) (rest : List OnlineSession)
      (channel_map : ChannelMap) where
    -- A run of `Aggregate` in which no call fails, on a directory that holds nothing but a file that
    -- `Generate` wrote and the checkpoint does not have, saves for the session of the client one
    -- chunk on the channel `external`, with exactly the download and the upload that `Generate`
    -- returned. The channel is enabled and none stands twice, the session comes first in the list and
    -- no other has its id, and the name is that of a flow file. The client address is
    -- taken to be internal and to print as it was written, the drawn addresses to be external, all
    -- of them to have no comma, number sign, line feed or carriage return and at most 1000 bytes,
    -- and the drawn numbers to be below the bound of `rand.IntN`.
    pub generate-saved :
        is_flow_name name ≡ true
        → contains db.flow_batch (batch_row nas_ip name) ≡ false
        → sess.ip ≡ p.client_ip
        → All (λ x. x.sess_id ≢ sess.sess_id) rest
        → NodupKeys channel_map
        → enabled channel_map external ≡ true
        → let g = (generate p draws none none).0 in
          let s = with_one name g.flow_bytes db in
          let r = (aggregate healthy nas_ip (sess ∷ rest) channel_map n s).0 in
          (chunks : List Chunk) × (r.db.chunk ≡ db.chunk ++ chunks)
          × (chunks_for sess.sess_id external chunks
              ≡ new_chunk sess.sess_id external g.download g.upload ∷ [])
    unfolding bytes
    generate-saved flow out same alone channels on =
        let lines = uncounted-with_one nas_ip name bytes db flow out in
        let r =
          aggregate-IsCredited nas_ip sess rest channel_map n (with_one name bytes db)
            (unfold lookup in (refl, tt)) (record { outside = (whole.1, tt); inside = tt })
            (λ f k h. unfold lookup in refl) channels name flow (unfold lookup in ground arith) out
            (rw lines some_credit) in
        (
          r.chunks,
          r.saved,
          r.credits [] rest sess external refl tt alone
              ∙ rw (lines, same, on, file_lines-total) refl,
        )
