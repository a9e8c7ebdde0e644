-- ===== src/Cycle/Workers/Completion.antt =====
-- That runBoundedChecks comes to its end, from whatever point its workers have reached.
use domain_monitor.Base.{
  ℕ, zero, suc, ◌<◌, ◌≡◌, refl, ◌⊎◌, inl, inr, true, false, List, [], ◌∷◌, ◌++◌, arith, ltb,
  if◌then◌else◌, ap, Bool-cases,
}
use domain_monitor.Cycle.Workers.{
  Worker, claiming, checking, returned, Group, Step, claims, checks, Reach, after_step, times,
  all_returned,
}
use domain_monitor.Cycle.Workers.Once.{check_exactly_once, work_left, work_left_falls}

abbrev Ready : List Worker → Type 0
Ready ws =
    (before : List Worker) × (after : List Worker) × ((ws ≡ before ++ claiming ∷ after)
      ⊎ ((j : ℕ) × (ws ≡ before ++ checking j ∷ after)))

ready : (ws : List Worker) → all_returned ws ≡ false → Ready ws
unfolding all_returned
ready [] h = absurd (ground arith)
ready (claiming ∷ ws) h = ([], ws, inl refl)
ready (checking j ∷ ws) h = ([], ws, inr (j, refl))
ready (returned ∷ ws) h =
    let (before, after, which) = ready ws h in
    (
      returned ∷ before,
      after,
      elim which [ inl e ↦ inl (ap (◌∷◌ returned) e) | inr (j, e) ↦ inr (j, ap (◌∷◌ returned) e) ],
    )

-- While a worker has not returned, some worker can move.
group_progress :
    (count : ℕ) (s : Group) → all_returned s.workers ≡ false → (t : Group) × Step count s t
group_progress count s h =
    let (before, after, which) = ready s.workers h in
    elim which [
      | inl e ↦ (_, claims before after e refl)
      | inr (j, e) ↦ (_, checks before after j e refl)
    ]

-- The moves that lead from one state to another.
pub data Run (count : ℕ) : Group → Group → Type 0 where
  stay : {s : Group} → Run count s s
  move : {s t v : Group} → Step count s t → Run count t v → Run count s v

-- The workers have returned, and each index below `count` was checked exactly once, and no other.
unfoldable pub Completes : ℕ → Group → Type 0
Completes count s =
    (t : Group) × Run count s t
    × (all_returned t.workers ≡ true)
    × ((i : ℕ) → times i t.checked ≡ (if ltb i count then 1 else 0))

Reach-Completes :
    (fuel count : ℕ) (s : Group) → Reach count s → work_left count s < fuel → Completes count s
unfolding Completes
Reach-Completes zero count s r h = absurd (omega (arith, h))
Reach-Completes (suc fuel) count s r h = elim (Bool-cases (all_returned s.workers)) [
  | inl e ↦ (s, stay, e, λ i. check_exactly_once i r e)
  | inr e ↦
      let (t, st) = group_progress count s e in
      let (v, run, done, once) =
        Reach-Completes fuel count t (after_step r st) (omega (arith, h, work_left_falls st)) in
      (v, move st run, done, once)
]

-- Whatever the workers have done so far, in any interleaving, moves remain that lead to a state in
-- which all of them have returned, and there each index below `count` was checked exactly once, and
-- no other.
pub group-Completes : (count : ℕ) (s : Group) → Reach count s → Completes count s
group-Completes count s r = Reach-Completes (suc (work_left count s)) count s r (omega arith)
