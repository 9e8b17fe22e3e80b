-- ===== src/Measure/Growth.antt =====
-- How the list of names grows that the aggregator keeps for its whole life.
use aggregator_demo.Base.{
  ℕ, zero, suc, ◌+◌, ◌*◌, ◌≡◌, refl, ap, ◌∙◌, Bool, true, false, Option, none, some, [], ◌∷◌, arith,
  length, length-append, text_eq,
}
use aggregator_demo.Base.Text.{Text, codes}
use aggregator_demo.Base.Map.{lookup}
use aggregator_demo.Measure.{Measure, MeasureData, new_measure, start, stopped, stop, result}

-- The timers of one cycle of `Start`, with the time of each call; the order in which the goroutines
-- use them does not change the number of names.
abbrev begun : (ℕ → ℕ) → Measure → Measure
begun now m =
    start (now 2) (codes "sessions")
      (start (now 1) (codes "channels") (start (now 0) (codes "dirs") m))

abbrev ended : (ℕ → ℕ) → Measure → Measure
ended now m =
    (stop (now 5) (codes "sessions")
      (stop (now 4) (codes "channels") (stop (now 3) (codes "dirs") m).0).0).0

abbrev pub cycles : Bool → (ℕ → ℕ → ℕ) → ℕ → Measure
cycles enabled now zero = new_measure
cycles enabled now (suc n) =
    (result enabled (ended (now n) (begun (now n) (cycles enabled now n)))).0

stopped-names :
    (now : ℕ) (name : Text) (m : Measure) (o : Option MeasureData)
    → (stopped now name m o).0.name_list ≡ m.name_list
unfolding stopped
stopped-names now name m none = refl
stopped-names now name m (some d) = refl

stop-names : (now : ℕ) (name : Text) (m : Measure) → (stop now name m).0.name_list ≡ m.name_list
unfolding stop
stop-names now name m = stopped-names now name m (lookup name m.data_map)

start-length :
    (now : ℕ) (name : Text) (m : Measure)
    → length (start now name m).name_list ≡ suc (length m.name_list)
unfolding start
start-length now name m = omega (arith, length-append m.name_list (name ∷ []))

begun-length : (now : ℕ → ℕ) (m : Measure) → length (begun now m).name_list ≡ length m.name_list + 3
begun-length now m =
    let a = start (now 0) (codes "dirs") m in
    let b = start (now 1) (codes "channels") a in
    omega (
      arith,
      start-length (now 0) (codes "dirs") m,
      start-length (now 1) (codes "channels") a,
      start-length (now 2) (codes "sessions") b,
    )

ended-names : (now : ℕ → ℕ) (m : Measure) → (ended now m).name_list ≡ m.name_list
ended-names now m =
    let a = (stop (now 3) (codes "dirs") m).0 in
    let b = (stop (now 4) (codes "channels") a).0 in
    stop-names (now 5) (codes "sessions") b
    ∙ stop-names (now 4) (codes "channels") a
    ∙ stop-names (now 3) (codes "dirs") m

-- The names of the aggregator's timers after `n` cycles that reach `Result`: three for each
-- cycle if MEASURE is not "enable", none if it is.
pub cycles-length :
    (now : ℕ → ℕ → ℕ) (n : ℕ)
    → (length (cycles false now n).name_list ≡ 3 * n) × ((cycles true now n).name_list ≡ [])
unfolding result
cycles-length now zero = (refl, refl)
cycles-length now (suc n) =
    let m = cycles false now n in
    (
      omega (
        arith,
        ap length (ended-names (now n) (begun (now n) m)),
        begun-length (now n) m,
        (cycles-length now n).0,
      ),
      refl,
    )
