-- ===== src/Utils/Retry/Bounded.antt =====
-- A retried operation comes to an end, within its bounds.
use domain_monitor.Base.{
  ℕ, zero, suc, ◌+◌, ◌≤◌, ◌<◌, ◌≡◌, refl, ◌⊎◌, inl, inr, Bool, true, false, not, ◌||◌, List, [],
  ◌∷◌, ◌++◌, Option, some, arith, ltb, ◌==◌, if◌then◌else◌, is_some, length, length-append, All,
  All-append,
}
use domain_monitor.Utils.Retry.{
  max_network_attempts, max_retry_delay, World, Retried, too_late, retry_delay, answered,
  interrupted, retry_loop, retry_with_backoff, each_asked, FromLast, FromContext,
}

module _ {ℓ} {A : Type ℓ} (w : World A) (nothing : A) (base : ℕ) where
  -- What holds of a run, in any round of the loop.
  record Fair (r : Retried A) : Type ℓ where
    first : 1 ≤ r.attempts
    bounded : r.attempts ≤ max_network_attempts
    counted : length r.waits + 1 ≡ r.attempts
    short : All (λ d. d ≤ max_retry_delay) r.waits
    asked : each_asked w nothing base r.attempts ≡ true
    origin : FromLast w nothing base r ⊎ FromContext w nothing base r

  each_asked-first : each_asked w nothing base 1 ≡ true
  unfolding each_asked
  each_asked-first = refl

  each_asked-next :
      (n : ℕ)
      → each_asked w nothing base n ≡ true
      → (w.attempt n).retry ≡ true
      → each_asked w nothing base (n + 1) ≡ true
  unfolding each_asked
  each_asked-next n a h = let e : n + 1 ≡ suc n = omega arith in rw e (ground arith)

  abbrev Ends : Option (Retried A) → Type ℓ
  Ends o = (r : Retried A) × (o ≡ some r) × Fair r

  if-Ends :
      (b : Bool) {x y : Option (Retried A)}
      → (b ≡ true → Ends x)
      → (b ≡ false → Ends y)
      → Ends (if b then x else y)
  if-Ends true yes_ no_ = yes_ refl
  if-Ends false yes_ no_ = no_ refl

  -- The facts that a round of the loop starts from.
  record Round (fuel n : ℕ) (waits : List ℕ) : Type ℓ where
    low : 1 ≤ n
    high : n ≤ max_network_attempts
    enough : max_network_attempts < fuel + n
    waited : length waits + 1 ≡ n
    brief : All (λ d. d ≤ max_retry_delay) waits
    repeated : each_asked w nothing base n ≡ true

  module _ {fuel n : ℕ} {waits : List ℕ} (h : Round fuel n waits) where
    here-Ends :
        (r : Retried A)
        → r.attempts ≡ n
        → r.waits ≡ waits
        → FromLast w nothing base r ⊎ FromContext w nothing base r
        → Ends (some r)
    here-Ends r en ew o = (
      r,
      refl,
      record {
        first = omega (arith, en);
        bounded = omega (arith, en);
        counted = rw (en, ew) h.waited;
        short = rw ew h.brief;
        asked = rw en h.repeated;
        origin = o;
      },
    )

    answered-Ends : Ends (some (answered w nothing base n waits))
    answered-Ends = here-Ends (answered w nothing base n waits) refl refl (inl (refl, refl))

  next-Round :
      (fuel n : ℕ) (waits : List ℕ)
      → (not (w.attempt n).retry || n == max_network_attempts) ≡ false
      → ltb max_retry_delay (retry_delay w nothing base n) ≡ false
      → Round (suc fuel) n waits
      → Round fuel (n + 1) (waits ++ retry_delay w nothing base n ∷ [])
  next-Round fuel n waits go small h =
      let last = retry_delay w nothing base n ∷ [] in
      record {
        low = omega (arith, h.low);
        high = ground (arith, h.high);
        enough = omega (arith, h.enough);
        waited = omega (arith, length-append {0} waits last, h.waited);
        brief = All-append (λ d. d ≤ max_retry_delay) waits last h.brief (ground arith, tt);
        repeated = each_asked-next n h.repeated (ground arith);
      }

  retry_loop-Ends :
      (fuel n : ℕ) (waits : List ℕ)
      → Round fuel n waits
      → Ends (retry_loop w nothing base fuel n waits)
  unfolding retry_loop
  retry_loop-Ends zero n waits h = absurd (omega (arith, h.high, h.enough))
  retry_loop-Ends (suc fuel) n waits h =
      let rest = retry_loop-Ends fuel (n + 1) (waits ++ retry_delay w nothing base n ∷ []) in
      if-Ends (not (w.attempt n).retry || n == max_network_attempts) (λ _. answered-Ends h)
        λ go.
          if-Ends (is_some (w.cancelled n))
            (λ e.
              here-Ends h (interrupted w nothing base (w.cancelled n) n waits) refl refl
                (inr (refl, e, inl refl)))
            λ _.
              if-Ends (ltb max_retry_delay (retry_delay w nothing base n)) (λ _. answered-Ends h)
                λ small.
                  if-Ends (too_late (w.until_deadline n) (retry_delay w nothing base n))
                    (λ _. answered-Ends h)
                    λ _.
                      if-Ends (is_some (w.woken n))
                        (λ e.
                          here-Ends h (interrupted w nothing base (w.woken n) n waits) refl refl
                            (inr (refl, e, inr refl)))
                        λ _. rest (next-Round fuel n waits go small h)

  -- With fuel for three rounds, a retried operation comes to an end: after one to three attempts,
  -- one wait between each two, none of them longer than half a minute. Each attempt but the last
  -- asked for another, and what is returned is the value and the error of the last attempt, or no
  -- value and the error of the context.
  pub retry_with_backoff_bounded :
      (fuel : ℕ)
      → 3 ≤ fuel
      → (r : Retried A) × (retry_with_backoff w nothing base fuel ≡ some r)
        × (1 ≤ r.attempts)
        × (r.attempts ≤ 3)
        × (length r.waits + 1 ≡ r.attempts)
        × All (λ d. d ≤ 30_000_000_000) r.waits
        × (each_asked w nothing base r.attempts ≡ true)
        × (FromLast w nothing base r ⊎ FromContext w nothing base r)
  unfolding retry_with_backoff
  retry_with_backoff_bounded fuel h =
      let (r, e, fair) = retry_loop-Ends fuel 1 [] (record {
        low = omega arith;
        high = omega arith;
        enough = omega arith;
        waited = refl;
        brief = tt;
        repeated = each_asked-first;
      }) in
      (r, e, fair.first, fair.bounded, fair.counted, fair.short, fair.asked, fair.origin)
