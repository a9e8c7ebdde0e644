-- ===== src/Cycle/Workers/Once.antt =====
-- What runBoundedChecks guarantees over every interleaving of its workers.
use domain_monitor.Base.{
  ℕ, zero, suc, ◌+◌, ◌-◌, ◌*◌, ◌≤◌, ◌<◌, min, ◌≡◌, refl, true, List, [], ◌∷◌, ◌++◌, arith, ltb,
  if◌then◌else◌, length, length-append, ap,
}
use domain_monitor.Cycle.Workers.{
  Worker, claiming, checking, returned, Group, default_max_concurrency, spawn, start, claim, Step,
  claims, checks, Reach, here, after_step, running, times, all_returned,
}

running-append :
    (i : ℕ) (ws : List Worker) (w : Worker) (vs : List Worker)
    → running i (ws ++ w ∷ vs) ≡ running i ws + running i (w ∷ []) + running i vs
unfolding running
running-append i [] claiming vs = omega arith
running-append i [] (checking j) vs = omega arith
running-append i [] returned vs = omega arith
running-append i (claiming ∷ ws) w vs = running-append i ws w vs
running-append i (checking j ∷ ws) w vs = ground (arith, running-append i ws w vs)
running-append i (returned ∷ ws) w vs = running-append i ws w vs

running-spawn : (i n : ℕ) → running i (spawn n) ≡ 0
unfolding running spawn
running-spawn i zero = refl
running-spawn i (suc n) = running-spawn i n

length-spawn : (n : ℕ) → length (spawn n) ≡ n
unfolding spawn
length-spawn zero = refl
length-spawn (suc n) = ap suc (length-spawn n)

running-all_returned : (i : ℕ) (ws : List Worker) → all_returned ws ≡ true → running i ws ≡ 0
unfolding running all_returned
running-all_returned i [] h = refl
running-all_returned i (claiming ∷ ws) h = ground arith
running-all_returned i (checking j ∷ ws) h = ground arith
running-all_returned i (returned ∷ ws) h = running-all_returned i ws h

ends : List Worker → ℕ
ends [] = 0
ends (claiming ∷ ws) = ends ws
ends (checking j ∷ ws) = ends ws
ends (returned ∷ ws) = suc (ends ws)

ends-append :
    (ws : List Worker) (w : Worker) (vs : List Worker)
    → ends (ws ++ w ∷ vs) ≡ ends ws + ends (w ∷ []) + ends vs
unfolding ends
ends-append [] claiming vs = omega arith
ends-append [] (checking j) vs = omega arith
ends-append [] returned vs = omega arith
ends-append (claiming ∷ ws) w vs = ends-append ws w vs
ends-append (checking j ∷ ws) w vs = ends-append ws w vs
ends-append (returned ∷ ws) w vs = omega (arith, ends-append ws w vs)

ends-spawn : (n : ℕ) → ends (spawn n) ≡ 0
unfolding ends spawn
ends-spawn zero = refl
ends-spawn (suc n) = ends-spawn n

ends-all_returned : (ws : List Worker) → all_returned ws ≡ true → ends ws ≡ length ws
unfolding ends all_returned
ends-all_returned [] h = refl
ends-all_returned (claiming ∷ ws) h = ground arith
ends-all_returned (checking j ∷ ws) h = ground arith
ends-all_returned (returned ∷ ws) h = ap suc (ends-all_returned ws h)

record Inv (count : ℕ) (s : Group) : Type 0 where
  tally :
      (i : ℕ)
      → running i s.workers + times i s.checked ≡ (if ltb i (min s.next count) then 1 else 0)
  late : 0 < ends s.workers → count ≤ s.next
  size : length s.workers ≡ min count default_max_concurrency

start-Inv : (count : ℕ) → Inv count (start count)
unfolding start times
start-Inv count = record {
  tally = λ i. ground (arith, running-spawn i (min count default_max_concurrency));
  late = omega (arith, ends-spawn (min count default_max_concurrency));
  size = length-spawn (min count default_max_concurrency);
}

Step-Inv : {count : ℕ} {s t : Group} → Step count s t → Inv count s → Inv count t
unfolding running times ends claim
Step-Inv {count} {s} (claims before after e f) v = rw f (record {
  tally = λ i. ground (
    arith,
    v.tally i,
    ap (running i) e,
    running-append i before claiming after,
    running-append i before (claim count s.next) after,
  );
  late = ground (
    arith,
    v.late,
    ap ends e,
    ends-append before claiming after,
    ends-append before (claim count s.next) after,
  );
  size = omega (
    arith,
    v.size,
    ap length e,
    length-append before (claiming ∷ after),
    length-append before (claim count s.next ∷ after),
  );
})
Step-Inv {s = s} (checks before after index e f) v = rw f (record {
  tally = λ i. ground (
    arith,
    v.tally i,
    ap (running i) e,
    running-append i before (checking index) after,
    running-append i before claiming after,
  );
  late = ground (
    arith,
    v.late,
    ap ends e,
    ends-append before (checking index) after,
    ends-append before claiming after,
  );
  size = omega (
    arith,
    v.size,
    ap length e,
    length-append before (checking index ∷ after),
    length-append before (claiming ∷ after),
  );
})

Reach-Inv : {count : ℕ} {s : Group} → Reach count s → Inv count s
Reach-Inv {count} here = start-Inv count
Reach-Inv (after_step r st) = Step-Inv st (Reach-Inv r)

-- In every state that any interleaving reaches, an index below `count` is taken at most once (it
-- is being checked by one worker, or has been checked once), an index from `count` on is never
-- taken, and the workers are at most 32.
pub check_at_most_once :
    {count : ℕ} {s : Group} (i : ℕ)
    → Reach count s
    → (running i s.workers + times i s.checked ≤ (if ltb i count then 1 else 0))
      × (length s.workers ≤ 32)
check_at_most_once i r = let v = Reach-Inv r in ground (arith, v.tally i, v.size)

-- Once every worker has returned, each index below `count` was checked exactly once, and no other.
pub check_exactly_once :
    {count : ℕ} {s : Group} (i : ℕ)
    → Reach count s
    → all_returned s.workers ≡ true
    → times i s.checked ≡ (if ltb i count then 1 else 0)
check_exactly_once {count} {s} i r h =
    let v = Reach-Inv r in
    ground (
      arith,
      v.tally i,
      v.late,
      v.size,
      running-all_returned i s.workers h,
      ends-all_returned s.workers h,
    )

rank : List Worker → ℕ
rank [] = 0
rank (claiming ∷ ws) = 1 + rank ws
rank (checking j ∷ ws) = 2 + rank ws
rank (returned ∷ ws) = rank ws

rank-append :
    (ws : List Worker) (w : Worker) (vs : List Worker)
    → rank (ws ++ w ∷ vs) ≡ rank ws + rank (w ∷ []) + rank vs
unfolding rank
rank-append [] claiming vs = omega arith
rank-append [] (checking j) vs = omega arith
rank-append [] returned vs = omega arith
rank-append (claiming ∷ ws) w vs = omega (arith, rank-append ws w vs)
rank-append (checking j ∷ ws) w vs = omega (arith, rank-append ws w vs)
rank-append (returned ∷ ws) w vs = rank-append ws w vs

-- What is left to do: three units for each index to come, and what the workers hold.
unfoldable pub work_left : ℕ → Group → ℕ
unfolding rank
work_left count s = 3 * (count - s.next) + rank s.workers

-- Whatever worker moves, the work left falls: an interleaving has no more moves than `work_left`
-- says at its start.
pub work_left_falls :
    {count : ℕ} {s t : Group} → Step count s t → work_left count t < work_left count s
unfolding work_left claim
work_left_falls {count} {s} (claims before after e f) = rw f (
    ground (
      arith,
      ap rank e,
      rank-append before claiming after,
      rank-append before (claim count s.next) after,
    ))
work_left_falls {count} {s} (checks before after index e f) = rw f (
    omega (
      arith,
      ap rank e,
      rank-append before (checking index) after,
      rank-append before claiming after,
    ))
