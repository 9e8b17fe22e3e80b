-- ===== src/Tests/WaitingExamples.antt =====
-- A run that meets no failure, in a service that the workers and the collectors have brought about.
use aggregator_demo.Storage.Lines.{flow_lines}
use aggregator_demo.Base.Strconv.{atoi}
use aggregator_demo.Base.{◌≡◌, true, false, refl, [], ◌∷◌, text_eq, nat_eq}
use aggregator_demo.Base.Text.{codes, has_infix, starts_with, split}
use aggregator_demo.Base.Map.{set_at, lookup}
use aggregator_demo.Storage.{place}
use aggregator_demo.Storage.Lookup.{is_flow_name}
use aggregator_demo.Aggregator.Stages.{aggregate}
use aggregator_demo.Machine.Interleaved.{put}
use aggregator_demo.Machine.Waiting.{found, waiting-Counts}
use aggregator_demo.Aggregator.Healthy.{healthy}
use aggregator_demo.Storage.Complete.{is_file}
use aggregator_demo.Storage.Ready.{IsReady, scan_error}
use aggregator_demo.Storage.Scan.{scan}
use aggregator_demo.Tests.Data.{net, channels, nas, client, other_client}
use aggregator_demo.Traffic.Credit.{credits, line_credits}
use aggregator_demo.Traffic.Verdict.{is_empty}
use aggregator_demo.Aggregator.Credits.{uncounted, IsOutcome, IsCredited}
use aggregator_demo.Machine.Waiting.{waiting-IsCredited}
use aggregator_demo.Tests.MachineExamples.{
  with_file, with_file-Reached, IsAnswering, no_rows-IsAnswering, no_data-IsAnswering,
}

with_file-IsReady : IsReady (with_file.dirs nas)
unfolding put set_at place text_eq nat_eq scan_error scan split
with_file-IsReady = record { outside = (refl, (refl, tt)); inside = tt }

with_file_flow : is_flow_name (codes "ft-1") ≡ true
unfolding has_infix starts_with nat_eq
with_file_flow = refl

with_file_there : is_file (lookup (codes "ft-1") (with_file.dirs nas).entries) ≡ true
unfolding put set_at place lookup text_eq nat_eq
with_file_there = refl

waiting-Counts_example :
    IsOutcome nas net channels
      (uncounted nas (found with_file nas))
      (client ∷ other_client ∷ [])
      (found with_file nas)
      (aggregate healthy nas (client ∷ other_client ∷ []) channels net (found with_file nas))
unfolding lookup nat_eq
waiting-Counts_example =
    waiting-Counts IsAnswering no_rows-IsAnswering no_data-IsAnswering with_file nas client
      (other_client ∷ []) channels net (codes "ft-1") with_file-Reached (refl, (refl, tt))
      with_file-IsReady with_file_flow with_file_there

with_file_credit : is_empty (credits net (uncounted nas (found with_file nas))) ≡ false
unfolding credits flow_lines put text_eq has_infix nat_eq lookup split line_credits net atoi
with_file_credit = refl

waiting-IsCredited_example :
    IsCredited nas net channels
      (uncounted nas (found with_file nas))
      (client ∷ other_client ∷ [])
      (found with_file nas)
      (aggregate healthy nas (client ∷ other_client ∷ []) channels net (found with_file nas))
unfolding lookup nat_eq
waiting-IsCredited_example =
    waiting-IsCredited IsAnswering no_rows-IsAnswering no_data-IsAnswering with_file nas client
      (other_client ∷ []) channels net (codes "ft-1") with_file-Reached (refl, (refl, tt))
      with_file-IsReady with_file_flow with_file_there with_file_credit
