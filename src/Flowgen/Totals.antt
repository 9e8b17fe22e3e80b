-- ===== src/Flowgen/Totals.antt =====
-- The totals that `Generate` returns against what the accumulator counts of its file.
use mathlib.Core.List.{append_assoc, append-nil}
use aggregator_demo.Base.{
  ℕ, zero, suc, ◌+◌, ◌*◌, ◌<◌, ◌≤◌, ◌≡◌, refl, sym, ap, ◌∙◌, Bool, true, false, not, none, List, [],
  ◌∷◌, ◌++◌, arith, Bool-cases, inl, inr, nat_eq, text_eq, contains,
}
use aggregator_demo.Base.Word.{word, add64}
use aggregator_demo.Base.Text.{Text, split, has_infix, starts_with}
use aggregator_demo.Base.Text.Fields.{split-field}
use aggregator_demo.Entity.{external, Traffic, flow_header}
use aggregator_demo.Traffic.{Net, ChannelMap, enabled, new_flow_accumulator}
use aggregator_demo.Traffic.Credit.{
  Credit, total, credits, line_credits, credited, line_record, row_record,
}
use aggregator_demo.Traffic.Accumulate.{client_traffic, accumulate_lines, accumulate_lines-total}
use aggregator_demo.Flowgen.{
  record_count, max_byte_size, Params, Draw, bytes_transfered, flow_line, Generated, is_even,
  with_record, records, header, generate,
}
use aggregator_demo.Flowgen.Counted.{
  IsClient, IsOutside, worth, line_credits-worth, flow_line-one_line,
}

abbrev generated : ℕ → ℕ → Text → Generated
generated a b s = record { download = a; upload = b; flow_bytes = s }

abbrev share : Bool → ℕ → ℕ
share true b = b
share false b = 0

module _ (p : Params) (draws : ℕ → Draw) where
  -- The bytes of the records that go to the client, of `k` records from the index `i` on.
  abbrev pub down : ℕ → ℕ → ℕ
  down zero i = 0
  down (suc k) i = share (is_even i) (bytes_transfered (draws i)) + down k (suc i)

  abbrev pub up : ℕ → ℕ → ℕ
  up zero i = 0
  up (suc k) i = share (not (is_even i)) (bytes_transfered (draws i)) + up k (suc i)

  abbrev pub text : ℕ → ℕ → Text
  text zero i = []
  text (suc k) i = flow_line p (draws i) (is_even i) ++ b'\n' ∷ text k (suc i)

  abbrev pub lines : ℕ → ℕ → List Text
  lines zero i = [] ∷ []
  lines (suc k) i = flow_line p (draws i) (is_even i) ∷ lines k (suc i)

  with_record-sum :
      (d : Draw) (b : Bool) (g : Generated)
      → with_record p d b g ≡ record {
        download = g.download + share b (bytes_transfered d);
        upload = g.upload + share (not b) (bytes_transfered d);
        flow_bytes = g.flow_bytes ++ (flow_line p d b ++ b'\n' ∷ []);
      }
  unfolding with_record
  with_record-sum d true g = λ i. record {
    download = g.download + bytes_transfered d;
    upload = add_zero g.upload i;
    flow_bytes = g.flow_bytes ++ (flow_line p d true ++ b'\n' ∷ []);
  }
    where
      add_zero : (a : ℕ) → a ≡ a + 0
      add_zero a = omega arith
  with_record-sum d false g = λ i. record {
    download = add_zero g.download i;
    upload = g.upload + bytes_transfered d;
    flow_bytes = g.flow_bytes ++ (flow_line p d false ++ b'\n' ∷ []);
  }
    where
      add_zero : (a : ℕ) → a ≡ a + 0
      add_zero a = omega arith

  Generated-eq :
      (a a' b b' : ℕ) (s s' : Text)
      → a ≡ a'
      → b ≡ b'
      → s ≡ s'
      → generated a b s ≡ generated a' b' s'
  Generated-eq a a' b b' s s' x y z = λ i. generated (x i) (y i) (z i)

  pub records-sum :
      (k i : ℕ) (g : Generated)
      → records p draws k i g
        ≡ generated (g.download + down k i) (g.upload + up k i) (g.flow_bytes ++ text k i)
  unfolding records
  records-sum zero i g =
      Generated-eq g.download (g.download + 0) g.upload (g.upload + 0) g.flow_bytes
        (g.flow_bytes ++ []) (omega arith) (omega arith) (sym (append-nil g.flow_bytes))
  records-sum (suc k) i g =
      let l = flow_line p (draws i) (is_even i) in
      records-sum k (suc i) (with_record p (draws i) (is_even i) g)
      ∙ rw (with_record-sum (draws i) (is_even i) g) (
          Generated-eq _ _ _ _ _ _ (omega arith) (omega arith) (
            append_assoc g.flow_bytes (l ++ b'\n' ∷ []) (text k (suc i))
            ∙ ap (λ x. g.flow_bytes ++ x) (append_assoc l (b'\n' ∷ []) (text k (suc i)))))

module _ (n : Net) (p : Params) (client : IsClient n p.client_ip) (draws : ℕ → Draw)
    (peers : (i : ℕ) → IsOutside n (draws i).address)
    (numbers : (i : ℕ) → (draws i).number < max_byte_size) where
  text-split : (k i : ℕ) → split b'\n' (text p draws k i) ≡ lines p draws k i
  unfolding split
  text-split zero i = refl
  text-split (suc k) i =
      split-field b'\n' (flow_line p (draws i) (is_even i)) (text p draws k (suc i))
        (flow_line-one_line n p client (draws i) (is_even i) (peers i).plain)
      ∙ ap (λ x. flow_line p (draws i) (is_even i) ∷ x) (text-split k (suc i))

  down-bound : (k i : ℕ) → down p draws k i ≤ k * max_byte_size
  down-bound zero i = omega arith
  down-bound (suc k) i =
      let h = numbers i in
      elim (Bool-cases (is_even i)) [
        | inl e ↦ rw e (omega (arith, down-bound k (suc i), h))
        | inr e ↦ rw e (omega (arith, down-bound k (suc i)))
      ]

  up-bound : (k i : ℕ) → up p draws k i ≤ k * max_byte_size
  up-bound zero i = omega arith
  up-bound (suc k) i =
      let h = numbers i in
      elim (Bool-cases (is_even i)) [
        | inl e ↦ rw e (omega (arith, up-bound k (suc i)))
        | inr e ↦ rw e (omega (arith, up-bound k (suc i), h))
      ]

  nothing-credits : line_credits n [] ≡ []
  unfolding line_credits line_record row_record credited has_infix starts_with split
  nothing-credits = refl

  -- One more record.
  worth-total :
      (d : Draw) (b : Bool) (xs : List Credit) (x y : ℕ)
      → total p.client_ip external xs ≡ record { download = x; upload = y }
      → share b (bytes_transfered d) + x < word
      → share (not b) (bytes_transfered d) + y < word
      → total p.client_ip external (worth n p client d b ∷ xs) ≡ record {
        download = share b (bytes_transfered d) + x;
        upload = share (not b) (bytes_transfered d) + y;
      }
  unfolding total worth add64
  worth-total d true xs x y h k l = ground (arith, h)
  worth-total d false xs x y h k l = ground (arith, h)

  share-bound : (b : Bool) (i : ℕ) → share b (bytes_transfered (draws i)) ≤ max_byte_size
  share-bound true i = omega (arith, numbers i)
  share-bound false i = omega arith

  -- The credits of the client in the lines.
  lines-total :
      (k i : ℕ)
      → k ≤ record_count
      → total p.client_ip external (credits n (lines p draws k i))
        ≡ record { download = down p draws k i; upload = up p draws k i }
  unfolding credits
  lines-total zero i h = rw nothing-credits (unfold total in refl)
  lines-total (suc k) i h =
      let b = is_even i in
      rw (line_credits-worth n p client (draws i) b (numbers i) (peers i)) (
        worth-total (draws i) b (credits n (lines p draws k (suc i))) (down p draws k (suc i))
          (up p draws k (suc i)) (lines-total k (suc i) (omega (arith, h)))
          (omega (arith, h, share-bound b i, down-bound k (suc i)))
          (omega (arith, h, share-bound (not b) i, up-bound k (suc i))))

  pub header-credits : line_credits n flow_header ≡ []
  unfolding line_credits line_record credited has_infix starts_with nat_eq
  header-credits = refl

  header-one_line : contains flow_header b'\n' ≡ false
  unfolding nat_eq
  header-one_line = refl

  pub file-split :
      (k : ℕ)
      → split b'\n' ((flow_header ++ b'\n' ∷ []) ++ text p draws k 0)
        ≡ flow_header ∷ lines p draws k 0
  file-split k =
      ap (λ x. split b'\n' x) (append_assoc flow_header (b'\n' ∷ []) (text p draws k 0))
      ∙ split-field b'\n' flow_header (text p draws k 0) header-one_line
      ∙ ap (λ x. flow_header ∷ x) (text-split k 0)

  pub file-total :
      (k : ℕ)
      → k ≤ record_count
      → total p.client_ip external (credits n (flow_header ∷ lines p draws k 0))
        ≡ record { download = down p draws k 0; upload = up p draws k 0 }
  unfolding credits
  file-total k h = rw header-credits (lines-total k 0 h)

  pub from_zero :
      (a b : ℕ)
      → ◌≡◌ {A = Traffic}
          (record { download = a; upload = b })
          (record { download = 0 + a; upload = 0 + b })
  from_zero a b = λ i. record { download = zero_add a i; upload = zero_add b i }
    where
      zero_add : (a : ℕ) → a ≡ 0 + a
      zero_add a = omega arith

  -- The lines of the file that `Generate` writes give its client on the channel `external`, if
  -- that channel is enabled, exactly the download and the upload that `Generate` returns. The client
  -- address is taken to be internal and to print as it was written, the drawn addresses to be external,
  -- all of them to have neither a comma nor a number sign nor a line feed, and the drawn numbers
  -- to be below the bound of `rand.IntN`.
  pub generate-counted :
      (cm : ChannelMap)
      → enabled cm external ≡ true
      → let g = (generate p draws none none).0 in
        client_traffic
          (accumulate_lines n (new_flow_accumulator cm) (split b'\n' g.flow_bytes))
          p.client_ip
          external
        ≡ record { download = g.download; upload = g.upload }
  unfolding generate
  generate-counted cm h =
      rw (records-sum p draws record_count 0 header, file-split record_count)
        (accumulate_lines-total n cm (flow_header ∷ lines p draws record_count 0) p.client_ip
            external
          ∙ rw h (file-total record_count (omega arith) ∙ from_zero _ _))
