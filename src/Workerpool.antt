-- ===== src/Workerpool.antt =====
-- src/tools/workerpool: at most `size` functions run at the same time. The goroutines and the two
-- counters that they share, the semaphore channel and the WaitGroup, move by steps in any order.
pub mod Bounds
pub mod Progress
use aggregator_demo.Base.{
  ℕ, suc, ◌+◌, ◌-◌, ◌<◌, ◌≡◌, Bool, true, false, ◌||◌, List, [], ◌∷◌, ◌++◌, ltb, if◌then◌else◌,
}
use aggregator_demo.Base.Word.{Int64, is_negative}

abbrev pub min_size : ℕ
min_size = 1

-- Where a goroutine of the pool stands: its function runs, it has returned or panicked and the
-- panic is recovered, or its slot is free again.
pub data Phase : Type 0 where
  runs recovered released : Phase

-- A goroutine with the number of its function.
pub record Worker : Type 0 where
  pub fn : ℕ
  pub phase : Phase

-- `sem` counts the elements in the channel, and `wg` is the counter of the WaitGroup. `panics` lists
-- the functions for which `onPanic` was called, the last first.
pub record Pool : Type 0 where
  pub size : ℕ
  pub sem : ℕ
  pub wg : ℕ
  pub workers : List Worker
  pub panics : List ℕ

-- `New`
unfoldable pub new_pool : Int64 → Pool
new_pool size = record {
  size = if is_negative size || ltb size min_size then min_size else size;
  sem = 0;
  wg = 0;
  workers = [];
  panics = [];
}

-- `Go` past the `select`: a slot is taken and the goroutine starts.
unfoldable pub started : ℕ → Pool → Pool
started fn p = record p {
  sem = suc p.sem;
  wg = suc p.wg;
  workers = record { fn = fn; phase = runs } ∷ p.workers;
}

-- What a goroutine does next; the two deferred calls are the two steps after the function.
unfoldable pub on_panic : Bool → ℕ → List ℕ → List ℕ
on_panic true fn panics = fn ∷ panics
on_panic false fn panics = panics

abbrev pub moved : ℕ → Phase → Worker
moved fn phase = record { fn = fn; phase = phase }

-- `Go` returns true with a new goroutine, or false with nothing changed; it waits while no slot is
-- free, unless the context ends. The other steps are those of a goroutine in `workers`.
pub data Step : Pool → Pool → Type 0 where
  go_starts : (p : Pool) (fn : ℕ) → p.sem < p.size → Step p (started fn p)
  go_cancelled : (p : Pool) → Step p p
  returns :
      (size sem wg : ℕ) (before after : List Worker) (panics : List ℕ) (fn : ℕ) (panicked : Bool)
      → Step
          (record {
            size = size;
            sem = sem;
            wg = wg;
            workers = before ++ moved fn runs ∷ after;
            panics = panics;
          })
          (record {
            size = size;
            sem = sem;
            wg = wg;
            workers = before ++ moved fn recovered ∷ after;
            panics = on_panic panicked fn panics;
          })
  releases :
      (size sem wg : ℕ) (before after : List Worker) (panics : List ℕ) (fn : ℕ)
      → Step
          (record {
            size = size;
            sem = suc sem;
            wg = wg;
            workers = before ++ moved fn recovered ∷ after;
            panics = panics;
          })
          (record {
            size = size;
            sem = sem;
            wg = wg;
            workers = before ++ moved fn released ∷ after;
            panics = panics;
          })
  ends :
      (size sem wg : ℕ) (before after : List Worker) (panics : List ℕ) (fn : ℕ)
      → Step
          (record {
            size = size;
            sem = sem;
            wg = suc wg;
            workers = before ++ moved fn released ∷ after;
            panics = panics;
          })
          (record { size = size; sem = sem; wg = wg; workers = before ++ after; panics = panics })

pub data Reachable (size : Int64) : Pool → Type 0 where
  new : Reachable size (new_pool size)
  next : (p p' : Pool) → Reachable size p → Step p p' → Reachable size p'
