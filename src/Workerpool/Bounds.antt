-- ===== src/Workerpool/Bounds.antt =====
-- The bound on the functions that run at the same time, and what `Wait` waits for.
use aggregator_demo.Base.{
  ◌||◌, ℕ, ◌+◌, ◌≤◌, ◌≡◌, refl, sym, ◌∙◌, ap, List, [], ◌∷◌, ◌++◌, arith, ltb, if◌then◌else◌,
  length, length-append,
}
use aggregator_demo.Base.Word.{Int64, is_negative}
use aggregator_demo.Workerpool.{
  moved, min_size, Phase, runs, recovered, released, Worker, Pool, new_pool, started, Step,
  go_starts, go_cancelled, returns, releases, ends, Reachable, new, next,
}

-- The goroutines that hold a slot, and those whose function runs.
abbrev pub holds : Phase → ℕ
holds runs = 1
holds recovered = 1
holds released = 0

abbrev pub is_running : Phase → ℕ
is_running runs = 1
is_running recovered = 0
is_running released = 0

abbrev pub total : (Phase → ℕ) → List Worker → ℕ
total f [] = 0
total f (w ∷ workers) = f w.phase + total f workers

pub total-append :
    (f : Phase → ℕ) (xs ys : List Worker) → total f (xs ++ ys) ≡ total f xs + total f ys
total-append f [] ys = omega arith
total-append f (x ∷ xs) ys = omega (arith, total-append f xs ys)

running-holding : (workers : List Worker) → total is_running workers ≤ total holds workers
running-holding [] = omega arith
running-holding (w ∷ workers) = ground (arith, running-holding workers)

-- The semaphore counts the slots that are held, the WaitGroup all goroutines.
pub record IsCounted (p : Pool) : Type 0 where
  pub slots : p.sem ≡ total holds p.workers
  pub waited : p.wg ≡ length p.workers
  pub bound : p.sem ≤ p.size

IsCounted-Step : (p p' : Pool) → Step p p' → IsCounted p → IsCounted p'
IsCounted-Step p _ (go_starts _ fn h) c =
    unfold started in
    record {
      slots = omega (arith, c.slots);
      waited = omega (arith, c.waited);
      bound = omega (arith, h);
    }
IsCounted-Step p _ (go_cancelled _) c = c
IsCounted-Step _ _ (returns size sem wg before after panics fn panicked) c = record {
  slots = omega (
    arith,
    c.slots,
    total-append holds before (moved fn runs ∷ after),
    total-append holds before (moved fn recovered ∷ after),
  );
  waited = omega (
    arith,
    c.waited,
    length-append before (moved fn runs ∷ after),
    length-append before (moved fn recovered ∷ after),
  );
  bound = c.bound;
}
IsCounted-Step _ _ (releases size sem wg before after panics fn) c = record {
  slots = omega (
    arith,
    c.slots,
    total-append holds before (moved fn recovered ∷ after),
    total-append holds before (moved fn released ∷ after),
  );
  waited = omega (
    arith,
    c.waited,
    length-append before (moved fn recovered ∷ after),
    length-append before (moved fn released ∷ after),
  );
  bound = omega (arith, c.bound);
}
IsCounted-Step _ _ (ends size sem wg before after panics fn) c = record {
  slots = omega (
    arith,
    c.slots,
    total-append holds before (moved fn released ∷ after),
    total-append holds before (after),
  );
  waited = omega (
    arith,
    c.waited,
    length-append before (moved fn released ∷ after),
    length-append before (after),
  );
  bound = c.bound;
}

pub Reachable-IsCounted : (size : Int64) (p : Pool) → Reachable size p → IsCounted p
Reachable-IsCounted size _ new =
    unfold new_pool is_negative in record { slots = refl; waited = refl; bound = omega arith }
Reachable-IsCounted size p (next q _ r s) = IsCounted-Step q p s (Reachable-IsCounted size q r)

size-Step : (p p' : Pool) → Step p p' → p'.size ≡ p.size
size-Step p _ (go_starts _ fn h) = unfold started in refl
size-Step p _ (go_cancelled _) = refl
size-Step _ _ (returns size sem wg before after panics fn panicked) = refl
size-Step _ _ (releases size sem wg before after panics fn) = refl
size-Step _ _ (ends size sem wg before after panics fn) = refl

size-Reachable : (size : Int64) (p : Pool) → Reachable size p → p.size ≡ (new_pool size).size
size-Reachable size _ new = refl
size-Reachable size p (next q _ r s) = size-Step q p s ∙ size-Reachable size q r

-- In every state that a pool reaches, at most `size` functions run at the same time, at most one
-- for a size below one. A panic frees its slot as a return does.
pub running-bound :
    (size : Int64) (p : Pool)
    → Reachable size p
    → total is_running p.workers
      ≤ (if is_negative size || ltb size min_size then min_size else size)
unfolding new_pool is_negative
running-bound size p r =
    let c = Reachable-IsCounted size p r in
    omega (arith, running-holding p.workers, c.slots, c.bound, size-Reachable size p r)

length-zero : (workers : List Worker) → length workers ≡ 0 → workers ≡ []
length-zero [] h = refl
length-zero (w ∷ workers) h = ground (arith, h)

-- When `Wait` returns, which is when the counter of the WaitGroup is zero, no goroutine of the
-- pool is left and every slot is free.
pub wait-free :
    (size : Int64) (p : Pool) → Reachable size p → p.wg ≡ 0 → (p.workers ≡ []) × (p.sem ≡ 0)
wait-free size p r h =
    let c = Reachable-IsCounted size p r in
    let e = length-zero p.workers (sym c.waited ∙ h) in (e, c.slots ∙ ap (total holds) e)
