-- ===== src/Measure.antt =====
-- src/tools/measure/measure.go: timers by name. The mutex is left out: each call is one step. What
-- is written is a list of messages, one constructor for each format string.
pub mod Growth
pub mod Top
use aggregator_demo.Base.{
  ℕ, suc, ◌+◌, ◌-◌, Bool, true, false, Option, none, some, List, [], ◌∷◌, ◌++◌, ltb, text_eq,
  if◌then◌else◌, take, map,
}
use aggregator_demo.Base.Text.{Text}
use aggregator_demo.Base.Map.{Map, lookup, insert}

-- `measureData`, in nanoseconds.
pub record MeasureData : Type 0 where
  pub name : Text
  pub start_time : ℕ
  pub elapsed : ℕ

pub record Measure : Type 0 where
  pub data_map : Map Text MeasureData
  pub name_list : List Text

-- `NewMeasure`, and what `reset` leaves.
abbrev pub new_measure : Measure
new_measure = record { data_map = []; name_list = [] }

unfoldable pub start : ℕ → Text → Measure → Measure
unfolding insert
start now name m = record {
  data_map = insert name (record { name = name; start_time = now; elapsed = 0 }) m.data_map;
  name_list = m.name_list ++ name ∷ [];
}

-- What goes to the `Writer`.
pub data Message : Type 0 where
  rule : Message
  heading : Message
  row : Text → ℕ → Message
  unfinished : Text → Message
  total_row : ℕ → Message
  top_heading : Message
  incorrect_start : Text → Message

-- `Stop`, by what stands under the name.
unfoldable pub stopped : ℕ → Text → Measure → Option MeasureData → Measure × ℕ × List Message
unfolding insert
stopped now name m none = (m, 0, incorrect_start name ∷ [])
stopped now name m (some d) =
    let elapsed = now - d.start_time in
    (record m { data_map = insert name (record d { elapsed = elapsed }) m.data_map }, elapsed, [])

unfoldable pub stop : ℕ → Text → Measure → Measure × ℕ × List Message
unfolding stopped lookup
stop now name m = stopped now name m (lookup name m.data_map)

-- The test of the loop of `Result`: a timer that has not ended does not count.
unfoldable pub ended_timer : Option MeasureData → Option MeasureData
ended_timer none = none
ended_timer (some d) = if ltb 0 d.elapsed then some d else none

unfoldable pub row_of : Text → Option MeasureData → Message
row_of name none = unfinished name
row_of name (some d) = row name d.elapsed

-- What the loop writes, and `totalResults` behind it.
unfoldable pub rows_of : Map Text MeasureData → List Text → List Message
unfolding row_of ended_timer lookup
rows_of data_map [] = []
rows_of data_map (name ∷ names) =
    row_of name (ended_timer (lookup name data_map)) ∷ rows_of data_map names

unfoldable pub with_timer : Option MeasureData → List MeasureData → List MeasureData
with_timer none ds = ds
with_timer (some d) ds = d ∷ ds

unfoldable pub total_results : Map Text MeasureData → List Text → List MeasureData
unfolding with_timer ended_timer lookup
total_results data_map [] = []
total_results data_map (name ∷ names) =
    with_timer (ended_timer (lookup name data_map)) (total_results data_map names)

-- `total += mData.Elapsed`
unfoldable pub total_of : List MeasureData → ℕ → ℕ
total_of [] total = total
total_of (d ∷ ds) total = total_of ds (total + d.elapsed)

-- `sort.SliceStable` with the longest first.
unfoldable pub insert_timer : MeasureData → List MeasureData → List MeasureData
insert_timer d [] = d ∷ []
insert_timer d (x ∷ xs) = if ltb d.elapsed x.elapsed then x ∷ insert_timer d xs else d ∷ x ∷ xs

unfoldable pub sort_timers : List MeasureData → List MeasureData
unfolding insert_timer
sort_timers [] = []
sort_timers (d ∷ ds) = insert_timer d (sort_timers ds)

abbrev pub max_result_count : ℕ
max_result_count = 5

-- The timers that the last loop writes before it breaks.
unfoldable pub top_timers : List MeasureData → List MeasureData
unfolding sort_timers
top_timers ds = take max_result_count (sort_timers ds)

unfoldable pub top_rows : List MeasureData → List Message
unfolding top_timers
top_rows [] = []
top_rows (d ∷ ds) = top_heading ∷ map (λ x. row x.name x.elapsed) (top_timers (d ∷ ds)) ++ rule ∷ []

-- `Result`, by whether the environment variable MEASURE is "enable".
unfoldable pub result : Bool → Measure → Measure × ℕ × List Message
unfolding total_of top_rows rows_of total_results
result false m = (m, 0, [])
result true m =
    let ds = total_results m.data_map m.name_list in
    let total = total_of ds 0 in
    (
      new_measure,
      total,
      rule
          ∷ heading
          ∷ rule
          ∷ (rows_of m.data_map m.name_list ++ (rule ∷ total_row total ∷ rule ∷ []) ++ top_rows ds),
    )
