-- ===== src/Cycle/Workers.antt =====
-- The worker group of a cycle: runBoundedChecks in src/internal/monitor/runtime.go. The workers
-- share one atomic counter, and any worker may move next.
pub mod Once
pub mod Completion
use domain_monitor.Base.{
  ℕ, zero, suc, ◌+◌, min, ◌≡◌, refl, Bool, true, false, List, [], ◌∷◌, ◌++◌, arith, leb, ◌==◌,
  if◌then◌else◌, length, ap,
}

-- What a worker does next: take the next index, run the check that it has taken, or nothing,
-- since the counter had passed the end.
pub data Worker : Type 0 where
  claiming : Worker
  checking : ℕ → Worker
  returned : Worker

pub record Group : Type 0 where
  pub next : ℕ
  pub workers : List Worker
  -- The indices for which `check` has returned, the latest first.
  pub checked : List ℕ

abbrev pub default_max_concurrency : ℕ
default_max_concurrency = 32

unfoldable pub spawn : ℕ → List Worker
spawn zero = []
spawn (suc n) = claiming ∷ spawn n

-- `min(count, DefaultMaxConcurrency) - 1` goroutines, and the caller itself; none for no check.
unfoldable pub start : ℕ → Group
unfolding spawn
start count = record { next = 0; workers = spawn (min count default_max_concurrency); checked = [] }

-- `index := int(next.Add(1)) - 1`, and the test that ends the worker.
unfoldable pub claim : ℕ → ℕ → Worker
claim count index = if leb count index then returned else checking index

-- One move of one worker, which the scheduler chooses.
pub data Step (count : ℕ) (s t : Group) : Type 0 where
  claims :
      (before after : List Worker)
      → s.workers ≡ before ++ claiming ∷ after
      → t ≡ record s { next = suc s.next; workers = before ++ claim count s.next ∷ after }
      → Step count s t
  checks :
      (before after : List Worker) (index : ℕ)
      → s.workers ≡ before ++ checking index ∷ after
      → t ≡ record s { workers = before ++ claiming ∷ after; checked = index ∷ s.checked }
      → Step count s t

pub data Reach (count : ℕ) : Group → Type 0 where
  here : Reach count (start count)
  after_step : {s t : Group} → Reach count s → Step count s t → Reach count t

-- How often an index is being checked, and how often it has been.
unfoldable pub running : ℕ → List Worker → ℕ
running i [] = 0
running i (claiming ∷ ws) = running i ws
running i (checking j ∷ ws) = (if j == i then 1 else 0) + running i ws
running i (returned ∷ ws) = running i ws

unfoldable pub times : ℕ → List ℕ → ℕ
times i [] = 0
times i (j ∷ js) = (if j == i then 1 else 0) + times i js

unfoldable pub all_returned : List Worker → Bool
all_returned [] = true
all_returned (returned ∷ ws) = all_returned ws
all_returned (claiming ∷ ws) = false
all_returned (checking j ∷ ws) = false
