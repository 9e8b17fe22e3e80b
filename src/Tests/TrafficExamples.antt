-- ===== src/Tests/TrafficExamples.antt =====
-- Counting and sifting of traffic at the lines and the sessions of the tests.
use mathlib.Core.List.{Permᴰ}
use aggregator_demo.Base.{◌≡◌, ◌≢◌, ◌↔◌, refl, none, some, [], ◌∷◌, nat_eq, text_eq, if◌then◌else◌}
use aggregator_demo.Base.Map.{NodupKeys, lookup}
use aggregator_demo.Entity.{no_data, new_chunk, new_empty_traffic, done, panic}
use aggregator_demo.Traffic.{
  TrafficMap, enabled, new_flow_accumulator, result, sift_loop, sift_traffic,
}
use aggregator_demo.Traffic.Credit.{credits, total}
use aggregator_demo.Traffic.Accumulate.{accumulate_lines, client_traffic, accumulate_lines-total}
use aggregator_demo.Traffic.Full.{accumulate_lines-IsFullMap}
use aggregator_demo.Traffic.Order.{accumulate_lines-perm}
use aggregator_demo.Traffic.Verdict.{verdict, result-verdict}
use aggregator_demo.Traffic.Sift.{chunks_for, chunks_for-accumulated}
use aggregator_demo.Traffic.Ending.{any_enabled, sift_traffic-outcome, sift_traffic-panic}
use aggregator_demo.Tests.Data.{net, channels, client, other_client, line_up, line_down, lines}

channels-NodupKeys : NodupKeys channels
unfolding lookup nat_eq
channels-NodupKeys = (refl, (refl, tt))

abbrev counted : TrafficMap
counted = (accumulate_lines net (new_flow_accumulator channels) lines).traffic_map

client≢other : other_client.sess_id ≢ client.sess_id
client≢other p = cc

-- 1000 bytes down from outside and 50 inside, by channel.
accumulate_lines-total_example :
    client_traffic (accumulate_lines net (new_flow_accumulator channels) lines) client.ip 2
    ≡ (if enabled channels 2 then total client.ip 2 (credits net lines) else new_empty_traffic)
accumulate_lines-total_example = accumulate_lines-total net channels lines client.ip 2

chunks_for-accumulated_example :
    chunks_for 7 2 (sift_loop channels counted (client ∷ other_client ∷ [])) ≡ (
      let t = total client.ip 2 (credits net lines) in
      if enabled channels 2 then new_chunk 7 2 t.download t.upload ∷ [] else [])
chunks_for-accumulated_example =
    chunks_for-accumulated net channels lines [] (other_client ∷ []) client 2 channels-NodupKeys tt
      (client≢other, tt)

accumulate_lines-perm_example :
    client_traffic
      (accumulate_lines net (new_flow_accumulator channels) (line_up ∷ line_down ∷ []))
      client.ip
      2
    ≡ client_traffic
        (accumulate_lines net (new_flow_accumulator channels) (line_down ∷ line_up ∷ []))
        client.ip
        2
accumulate_lines-perm_example =
    accumulate_lines-perm net channels (line_up ∷ line_down ∷ []) (line_down ∷ line_up ∷ [])
      client.ip 2 ∣ Permᴰ.swap refl refl ∣₁

result-verdict_example :
    (result (accumulate_lines net (new_flow_accumulator channels) lines)).1 ≡ verdict net lines
result-verdict_example = result-verdict net channels lines

sift_traffic-outcome_example : sift_traffic channels counted (client ∷ other_client ∷ []) ≡ (
    if any_enabled channels
    then done (sift_loop channels counted (client ∷ other_client ∷ []), none)
    else done ([], some no_data))
sift_traffic-outcome_example =
    sift_traffic-outcome channels counted channels-NodupKeys
      (accumulate_lines-IsFullMap net channels lines channels-NodupKeys) client (other_client ∷ [])

sift_traffic-panic_example :
    (sift_traffic channels counted (client ∷ []) ≡ panic) ↔ ((client ∷ []) ≡ [])
sift_traffic-panic_example = sift_traffic-panic channels counted (client ∷ [])
