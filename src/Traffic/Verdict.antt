-- ===== src/Traffic/Verdict.antt =====
-- `Result`: which error, if any, follows from the lines that were read.
use mathlib.Core.List.{append_assoc}
use aggregator_demo.Base.{
  ap, ℕ, ◌+◌, ◌≡◌, refl, ◌∙◌, Bool, true, false, ◌||◌, Option, none, some, List, [], ◌∷◌, ◌++◌,
  arith, ◌==◌, nat_eq, if◌then◌else◌, any, Option-cases, inl, inr, text_eq,
}
use aggregator_demo.Base.Text.{Text}
use aggregator_demo.Base.Map.{insert}
use aggregator_demo.Entity.{Error, no_data, internal_error, FlowRecord, Traffic}
use aggregator_demo.Traffic.{
  Net, ChannelMap, FlowAccumulator, new_flow_accumulator, count_at, count, classify, add_record,
  accumulate_line, result,
}
use aggregator_demo.Traffic.Credit.{
  Credit, line_record, record_credits, credited, line_credits, credits,
}
use aggregator_demo.Traffic.Accumulate.{accumulate_lines, add_parsed, accumulate_line-record}

abbrev pub is_empty {ℓ} : {A : Type ℓ} → List A → Bool
is_empty [] = true
is_empty (x ∷ xs) = false

module _ (n : Net) where
  -- The record of the line parsed, and the networks of both ends could be told.
  unfoldable pub recognised_record : Option FlowRecord → Bool
  unfolding classify
  recognised_record none = false
  recognised_record (some r) = elim (classify n r) [ none ↦ false | some flags ↦ true ]

  unfoldable pub recognised : Text → Bool
  unfolding recognised_record line_record
  recognised line = recognised_record (line_record n line)

  -- The error that the lines call for: none if an internal client was seen; `ErrNoData` if some
  -- line was recognised, so that all traffic was between external addresses; and otherwise
  -- `ErrInternalError`.
  unfoldable pub verdict : List Text → Option Error
  unfolding recognised credits
  verdict lines =
      if is_empty (credits n lines)
      then if any recognised lines then some no_data else some internal_error
      else none

  tally : List Text → ℕ
  tally [] = 0
  tally (line ∷ lines) = (if recognised line then 1 else 0) + tally lines

  any-tally :
      (lines : List Text) → any recognised lines ≡ (if tally lines == 0 then false else true)
  unfolding tally
  any-tally [] = ground arith
  any-tally (line ∷ lines) = ground (arith, any-tally lines)

  -- What the lines read so far say about the two counters and the map.
  record Told (a : FlowAccumulator) (seen : ℕ) (xs : List Credit) : Type 0 where
    counters : a.parsed_records ≡ a.classify_err_count + seen
    clients : is_empty a.traffic_map ≡ is_empty xs

  is_empty-insert :
      {V : Type 0} (k : Text) (v : V) (m : List (Text × V)) → is_empty (insert k v m) ≡ false
  unfolding insert
  is_empty-insert k v [] = refl
  is_empty-insert k v (x ∷ m) = ground arith

  pub is_empty-append :
      (xs ys : List Credit) → is_empty (xs ++ ys) ≡ (if is_empty xs then is_empty ys else false)
  is_empty-append [] ys = refl
  is_empty-append (x ∷ xs) ys = refl

  is_empty-count_at :
      (a : FlowAccumulator) (key : Text) (new : Traffic) (id : ℕ)
      → is_empty (count_at a key new id).traffic_map ≡ false
  unfolding count_at
  is_empty-count_at a key new id = is_empty-insert key _ a.traffic_map

  is_empty-count :
      (a : FlowAccumulator) (r : FlowRecord) (s d : Bool)
      → is_empty (count n a r s d).traffic_map ≡ (if s || d then false else is_empty a.traffic_map)
  unfolding count
  is_empty-count a r true true = is_empty-count_at _ _ _ _
  is_empty-count a r true false = is_empty-count_at _ _ _ _
  is_empty-count a r false true = is_empty-count_at _ _ _ _
  is_empty-count a r false false = refl

  counters-count :
      (a : FlowAccumulator) (r : FlowRecord) (s d : Bool)
      → ((count n a r s d).parsed_records ≡ a.parsed_records)
        × ((count n a r s d).classify_err_count ≡ a.classify_err_count)
  unfolding count count_at
  counters-count a r s d = ground arith

  Told-add_parsed :
      (a : FlowAccumulator) (o : Option FlowRecord) (seen : ℕ) (xs : List Credit)
      → Told a seen xs
      → Told (add_parsed n a o) (seen + (if recognised_record o then 1 else 0)) (xs ++ credited n o)
  unfolding add_parsed add_record recognised_record credited
  Told-add_parsed a none seen xs t = ground (arith, is_empty-append xs [])
  Told-add_parsed a (some r) seen xs t =
      let b : FlowAccumulator = record a { parsed_records = a.parsed_records + 1 } in
      elim (Option-cases (n.contains r.src_ip)) [
        | inl e ↦ ground (arith, is_empty-append xs (record_credits n r))
        | inr (s, e) ↦ elim (Option-cases (n.contains r.dst_ip)) [
          | inl f ↦ ground (arith, is_empty-append xs (record_credits n r))
          | inr (d, f) ↦ ground (
            arith,
            is_empty-append xs (record_credits n r),
            is_empty-count b r s d,
            counters-count b r s d,
          )
        ]
      ]

  Told-accumulate_lines :
      (lines : List Text) (a : FlowAccumulator) (seen : ℕ) (xs : List Credit)
      → Told a seen xs
      → Told (accumulate_lines n a lines) (seen + tally lines) (xs ++ credits n lines)
  unfolding accumulate_lines tally credits recognised line_credits
  Told-accumulate_lines [] a seen xs t = ground (arith, is_empty-append xs [])
  Told-accumulate_lines (line ∷ lines) a seen xs t =
      let step =
        Told-accumulate_lines lines (accumulate_line n a line).0
          (seen + (if recognised line then 1 else 0)) (xs ++ line_credits n line)
          (rw accumulate_line-record (Told-add_parsed a (line_record n line) seen xs t)) in
      record {
        counters = omega (arith, step.counters);
        clients =
            step.clients ∙ ap is_empty (append_assoc xs (line_credits n line) (credits n lines));
      }

  -- The error that `Result` returns after any lines is the one that the lines call for:
  -- `verdict` reads it off the lines, without the accumulator.
  pub result-verdict :
      (cm : ChannelMap) (lines : List Text)
      → (result (accumulate_lines n (new_flow_accumulator cm) lines)).1 ≡ verdict lines
  unfolding result verdict new_flow_accumulator
  result-verdict cm lines =
      let told =
        Told-accumulate_lines lines (new_flow_accumulator cm) 0 []
          (record { counters = omega arith; clients = refl }) in
      ground (arith, told.counters, told.clients, any-tally lines)
