-- ===== src/Cycle/Budget.antt =====
-- The time allowed for a cycle: saturatingWorkDuration in src/internal/monitor/runtime.go. Counts
-- and durations are not negative here; a duration is an int64, so its sum wraps.
use native.Mathlib.Nat.{div-lt_iff_lt-mul, le-div_iff_mul-le}
use domain_monitor.Base.{
  ℕ, zero, suc, ◌+◌, ◌-◌, ◌*◌, ◌/◌, ◌%◌, ◌^◌, ◌≤◌, ◌<◌, min, ◌≡◌, inl, inr, true, false, ◌||◌,
  arith, ltb, ◌==◌, if◌then◌else◌, Bool-cases,
}

abbrev pub max_int64 : ℕ
max_int64 = 9223372036854775807

unfoldable pub saturating_work_duration : ℕ → ℕ → ℕ → ℕ
saturating_work_duration count per_item base =
    if count == 0 || per_item == 0
    then base
    else if ltb ((max_int64 - base) / per_item) count
    then max_int64
    else (base + count * per_item) % 2 ^ 64

lt_of : (m n : ℕ) → ltb m n ≡ true → m < n
lt_of m n h = ground (arith, h)

le_of : (m n : ℕ) → ltb m n ≡ false → n ≤ m
le_of m n h = ground (arith, h)

nonzero : (n : ℕ) → (suc n == 0) ≡ false
nonzero n = ground arith

saturates : (base work : ℕ) → max_int64 - base < work → max_int64 ≡ min max_int64 (base + work)
saturates base work h = omega (arith, h)

fits :
    (base work : ℕ)
    → base ≤ max_int64
    → work ≤ max_int64 - base
    → (base + work) % 2 ^ 64 ≡ min max_int64 (base + work)
fits base work h k = omega (arith, h, k)

-- The duration never wraps: it is the base and the work for all items, or the largest duration
-- where that does not fit.
pub saturating_work_duration_lem :
    (count per_item base : ℕ)
    → base ≤ max_int64
    → saturating_work_duration count per_item base ≡ min max_int64 (base + count * per_item)
unfolding saturating_work_duration
saturating_work_duration_lem zero per_item base h = omega (arith, h)
saturating_work_duration_lem (suc n) zero base h = ground (arith, h)
saturating_work_duration_lem (suc n) (suc p) base h =
    elim (Bool-cases (ltb ((max_int64 - base) / suc p) (suc n))) [
      | inl full ↦
          rw (nonzero n, nonzero p, full)
            (saturates base (suc n * suc p) (
              (div-lt_iff_lt-mul {k = suc p} {x = max_int64 - base} {y = suc n} (omega arith)).0
                (lt_of ((max_int64 - base) / suc p) (suc n) full)))
      | inr room ↦
          rw (nonzero n, nonzero p, room)
            (fits base (suc n * suc p) h (
              (le-div_iff_mul-le {k = suc p} {x = suc n} {y = max_int64 - base} (omega arith)).0
                (le_of ((max_int64 - base) / suc p) (suc n) room)))
    ]
