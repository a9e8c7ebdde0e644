-- ===== src/Examples/Workers.antt =====
-- Examples for the order of the checks and the worker group.
use domain_monitor.Base.{
  ℕ, ◌+◌, ◌*◌, ◌≤◌, ◌<◌, ◌≡◌, refl, false, [], ◌∷◌, arith, length, ltb, if◌then◌else◌,
}
use domain_monitor.Cycle.Slots.{
  fast_check_slot, position_of, fast_check_slot_onto, domain_check_not_delayed,
}
use domain_monitor.Cycle.Workers.{
  claiming, checking, returned, Group, start, claim, Step, claims, checks, Reach, here, after_step,
  running, times, all_returned,
}
use domain_monitor.Cycle.Workers.Completion.{Completes, group-Completes}
use domain_monitor.Cycle.Workers.Once.{
  check_at_most_once, check_exactly_once, work_left, work_left_falls,
}

fast_check_slot_onto_example :
    (position_of false 1 5 2 < 5 + 2) × (fast_check_slot (position_of false 1 5 2) 5 2 ≡ (false, 1))
fast_check_slot_onto_example = fast_check_slot_onto false 1 5 2 (omega arith)

domain_check_not_delayed_example :
    (position : ℕ) × (position ≤ 2 * 1 + 1) × (fast_check_slot position 500 2 ≡ (false, 1))
domain_check_not_delayed_example = domain_check_not_delayed 1 500 2 (omega arith)

-- Two workers for two checks: the second takes both, and the first finds none left.
abbrev busy : Group
busy = record { next = 1; workers = claiming ∷ checking 0 ∷ []; checked = [] }

abbrev half : Group
half = record { next = 1; workers = claiming ∷ claiming ∷ []; checked = 0 ∷ [] }

abbrev late : Group
late = record { next = 2; workers = claiming ∷ checking 1 ∷ []; checked = 0 ∷ [] }

abbrev lone : Group
lone = record { next = 3; workers = returned ∷ checking 1 ∷ []; checked = 0 ∷ [] }

abbrev whole : Group
whole = record { next = 3; workers = returned ∷ claiming ∷ []; checked = 1 ∷ 0 ∷ [] }

abbrev done : Group
done = record { next = 4; workers = returned ∷ returned ∷ []; checked = 1 ∷ 0 ∷ [] }

start_half : Step 2 busy half
start_half = checks (claiming ∷ []) [] 0 refl refl

run_half : Reach 2 half
unfolding start claim
run_half = after_step (after_step here (claims (claiming ∷ []) [] refl refl)) start_half

run_late : Reach 2 late
unfolding claim
run_late = after_step run_half (claims (claiming ∷ []) [] refl refl)

run_lone : Reach 2 lone
unfolding claim
run_lone = after_step run_late (claims [] (checking 1 ∷ []) refl refl)

run_whole : Reach 2 whole
run_whole = after_step run_lone (checks (returned ∷ []) [] 1 refl refl)

run_done : Reach 2 done
unfolding claim
run_done = after_step run_whole (claims (returned ∷ []) [] refl refl)

check_exactly_once_example : times 1 (1 ∷ 0 ∷ []) ≡ (if ltb 1 2 then 1 else 0)
unfolding all_returned
check_exactly_once_example = check_exactly_once 1 run_done refl

check_at_most_once_example :
    (running 0 half.workers + times 0 half.checked ≤ (if ltb 0 2 then 1 else 0))
    × (length half.workers ≤ 32)
check_at_most_once_example = check_at_most_once 0 run_half

work_left_falls_example : work_left 2 half < work_left 2 busy
work_left_falls_example = work_left_falls start_half

group-Completes_example : Completes 2 half
group-Completes_example = group-Completes 2 half run_half
