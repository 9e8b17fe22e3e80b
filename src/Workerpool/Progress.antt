-- ===== src/Workerpool/Progress.antt =====
-- The next step of each goroutine: its receive from the semaphore channel, its call of `Done`.
use mathlib.Core.Path.{subst}
use aggregator_demo.Base.{
  ℕ, zero, suc, ◌≡◌, refl, sym, false, List, ◌∷◌, ◌++◌, arith, length-append,
}
use aggregator_demo.Workerpool.{
  Phase, runs, recovered, released, Worker, moved, Pool, Step, returns, releases, ends, Reachable,
}
use aggregator_demo.Workerpool.Bounds.{holds, total-append, IsCounted, Reachable-IsCounted}

-- The goroutines after one step of this one, which stands before `after`.
abbrev pub advance : ℕ → Phase → List Worker → List Worker
advance fn runs after = moved fn recovered ∷ after
advance fn recovered after = moved fn released ∷ after
advance fn released after = after

module _ (size : ℕ) (panics : List ℕ) (fn : ℕ) (before after : List Worker) where
  abbrev pool : Phase → ℕ → ℕ → Pool
  pool phase sem wg = record {
    size = size;
    sem = sem;
    wg = wg;
    workers = before ++ moved fn phase ∷ after;
    panics = panics;
  }

  abbrev CanMove : Phase → Pool → Type 0
  CanMove phase p = (q : Pool) × (Step p q × (q.workers ≡ before ++ advance fn phase after))

  pool-CanMove :
      (phase : Phase) (sem wg : ℕ)
      → IsCounted (pool phase sem wg)
      → CanMove phase (pool phase sem wg)
  pool-CanMove runs sem wg c = (_, (returns size sem wg before after panics fn false, refl))
  pool-CanMove recovered zero wg c =
      absurd (omega (arith, c.slots, total-append holds before (moved fn recovered ∷ after)))
  pool-CanMove recovered (suc sem) wg c = (_, (releases size sem wg before after panics fn, refl))
  pool-CanMove released sem zero c =
      absurd (omega (arith, c.waited, length-append before (moved fn released ∷ after)))
  pool-CanMove released sem (suc wg) c = (_, (ends size sem wg before after panics fn, refl))

-- In every state that a pool reaches, each goroutine can take its next step at once: its slot is in
-- the semaphore channel when it gives it back, and the WaitGroup counts it when it ends.
pub worker-moves :
    (size : ℕ) (p : Pool) (fn : ℕ) (phase : Phase) (before after : List Worker)
    → Reachable size p
    → p.workers ≡ before ++ moved fn phase ∷ after
    → (q : Pool) × (Step p q × (q.workers ≡ before ++ advance fn phase after))
worker-moves size p fn phase before after r e =
    subst (λ x. (q : Pool) × (Step x q × (q.workers ≡ before ++ advance fn phase after)))
      (λ i. record p { workers = sym e i })
      (pool-CanMove p.size p.panics fn before after phase p.sem p.wg
        (subst IsCounted (λ i. record p { workers = e i }) (Reachable-IsCounted size p r)))
