-- ===== src/Measure/Top.antt =====
-- The list of the longest timers that `Result` writes.
use mathlib.Core.Path.{subst}
use aggregator_demo.Base.{
  sym, ◌⊎◌, inl, inr, ℕ, zero, suc, ◌≤◌, ◌≡◌, refl, ap, ◌∙◌, List, [], ◌∷◌, ◌++◌, arith, All,
  length, take, drop, take-append-drop, select, ◌==◌, nat_eq,
}
use aggregator_demo.Measure.{MeasureData, insert_timer, sort_timers, max_result_count, top_timers}

-- None of them took longer.
abbrev pub NotAbove : ℕ → List MeasureData → Type 0
NotAbove n ds = All (λ y. y.elapsed ≤ n) ds

abbrev pub IsDescending : List MeasureData → Type 0
IsDescending [] = Unit
IsDescending (d ∷ ds) = NotAbove d.elapsed ds × IsDescending ds

-- The timers of one duration, in their order.
abbrev pub lasting : ℕ → List MeasureData → List MeasureData
lasting n ds = select (λ d. d.elapsed == n) ds

NotAbove-mono : (m n : ℕ) (ds : List MeasureData) → m ≤ n → NotAbove m ds → NotAbove n ds
NotAbove-mono m n [] h k = tt
NotAbove-mono m n (d ∷ ds) h k = (omega arith, NotAbove-mono m n ds h k.1)

NotAbove-insert_timer :
    (n : ℕ) (d : MeasureData) (ds : List MeasureData)
    → d.elapsed ≤ n
    → NotAbove n ds
    → NotAbove n (insert_timer d ds)
unfolding insert_timer
NotAbove-insert_timer n d [] h k = (h, tt)
NotAbove-insert_timer n d (x ∷ xs) h k = ground (arith, NotAbove-insert_timer n d xs h k.1)

insert_timer-IsDescending :
    (d : MeasureData) (ds : List MeasureData) → IsDescending ds → IsDescending (insert_timer d ds)
unfolding insert_timer
insert_timer-IsDescending d [] h = (tt, tt)
insert_timer-IsDescending d (x ∷ xs) h = ground (
  arith,
  insert_timer-IsDescending d xs h.1,
  NotAbove-insert_timer x.elapsed d xs,
  NotAbove-mono x.elapsed d.elapsed xs,
)

sort_timers-IsDescending : (ds : List MeasureData) → IsDescending (sort_timers ds)
unfolding sort_timers
sort_timers-IsDescending [] = tt
sort_timers-IsDescending (d ∷ ds) =
    insert_timer-IsDescending d (sort_timers ds) (sort_timers-IsDescending ds)

insert_timer-lasting :
    (n : ℕ) (d : MeasureData) (ds : List MeasureData)
    → lasting n (insert_timer d ds) ≡ lasting n (d ∷ ds)
unfolding insert_timer
insert_timer-lasting n d [] = refl
insert_timer-lasting n d (x ∷ xs) = ground (arith, insert_timer-lasting n d xs)

sort_timers-lasting : (n : ℕ) (ds : List MeasureData) → lasting n (sort_timers ds) ≡ lasting n ds
unfolding sort_timers
sort_timers-lasting n [] = refl
sort_timers-lasting n (d ∷ ds) =
    ground (arith, insert_timer-lasting n d (sort_timers ds), sort_timers-lasting n ds)

NotAbove-append :
    (n : ℕ) (xs ys : List MeasureData) → NotAbove n (xs ++ ys) → NotAbove n xs × NotAbove n ys
NotAbove-append n [] ys h = (tt, h)
NotAbove-append n (x ∷ xs) ys h = let (a, b) = NotAbove-append n xs ys h.1 in ((h.0, a), b)

-- The front of a descending list descends, and what is behind it is not above.
IsDescending-append :
    (xs ys : List MeasureData)
    → IsDescending (xs ++ ys)
    → IsDescending xs × All (λ x. NotAbove x.elapsed ys) xs
IsDescending-append [] ys h = (tt, tt)
IsDescending-append (x ∷ xs) ys h =
    let (a, b) = IsDescending-append xs ys h.1 in
    let (c, e) = NotAbove-append x.elapsed xs ys h.0 in ((c, a), (e, b))

length-take-drop :
    (n : ℕ) (xs : List MeasureData)
    → (length (take n xs) ≤ n) × ((drop n xs ≡ []) ⊎ (length (take n xs) ≡ n))
length-take-drop zero xs = (omega arith, inr refl)
length-take-drop (suc n) [] = (omega arith, inl refl)
length-take-drop (suc n) (x ∷ xs) =
    let (a, b) = length-take-drop n xs in
    (omega arith, elim b [ inl p ↦ inl p | inr p ↦ inr (ap suc p) ])

-- The timers that `Result` lists as the longest, and the `rest` that it leaves out.
pub record IsTop (ds top rest : List MeasureData) : Type 0 where
  pub descends : IsDescending top
  pub longest : All (λ x. NotAbove x.elapsed rest) top
  pub all : (n : ℕ) → lasting n (top ++ rest) ≡ lasting n ds
  pub few : length top ≤ max_result_count
  pub full : (rest ≡ []) ⊎ (length top ≡ max_result_count)

-- Of any timers `Result` lists at most five as the longest, and leaves one out only if it lists
-- five: the longest first, none shorter than one that is left out. The listed ones and the rest are
-- together the given timers, and those of one duration keep their order.
pub top_timers-IsTop :
    (ds : List MeasureData) → (rest : List MeasureData) × IsTop ds (top_timers ds) rest
unfolding top_timers
top_timers-IsTop ds =
    let all = sort_timers ds in
    let rest = drop max_result_count all in
    let whole = take-append-drop max_result_count all in
    let parts =
      IsDescending-append (take max_result_count all) rest
        (subst IsDescending (sym whole) (sort_timers-IsDescending ds)) in
    let sizes = length-take-drop max_result_count all in
    (
      rest,
      record {
        descends = parts.0;
        longest = parts.1;
        all = λ n. ap (lasting n) whole ∙ sort_timers-lasting n ds;
        few = sizes.0;
        full = sizes.1;
      },
    )
