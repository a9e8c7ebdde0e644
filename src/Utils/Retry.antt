-- ===== src/Utils/Retry.antt =====
-- Attempts with waits between them: retryBackoff and retryWithBackoff in
-- src/internal/monitor/utils.go. The operation, the context, the clock and the random numbers are
-- a record of what each attempt meets. Durations are in nanoseconds; a negative one, which Go only
-- compares with a longer one, is 0 here. The loop takes fuel, of which three rounds are enough.
pub mod Bounded
use domain_monitor.Base.{
  ℕ, zero, suc, ◌+◌, ◌-◌, ◌*◌, ◌/◌, ◌%◌, ◌^◌, ◌≤◌, ◌<◌, ◌≡◌, refl, ◌⊎◌, inl, inr, Bool, true, false,
  not, ◌&&◌, ◌||◌, List, [], ◌∷◌, ◌++◌, Option, none, some, arith, max, min, ltb, leb, ◌==◌,
  if◌then◌else◌, Bool-cases, is_some, length, length-append, All, All-append,
}
use domain_monitor.Text.{Text, trim_space}
use domain_monitor.Errors.{MaybeError, error_is, context_canceled, context_deadline_exceeded}

abbrev pub max_network_attempts : ℕ
max_network_attempts = 3

abbrev pub retry_jitter_divisor : ℕ
retry_jitter_divisor = 4

abbrev pub max_retry_delay : ℕ
max_retry_delay = 30_000_000_000

-- What one call of the operation returns.
pub record Attempt {ℓ} (A : Type ℓ) : Type ℓ where
  pub value : A
  pub retry : Bool
  pub server_delay : ℕ
  pub err : MaybeError

-- `cancelled` is ctx.Err() behind an attempt, `woken` that during the wait, `random k n` the draw
-- rand.Int64N(n), and `until_deadline` the time left, if the context has a deadline.
pub record World {ℓ} (A : Type ℓ) : Type ℓ where
  pub attempt : ℕ → Attempt A
  pub cancelled : ℕ → MaybeError
  pub woken : ℕ → MaybeError
  pub random : ℕ → ℕ → ℕ
  pub until_deadline : ℕ → Option ℕ

-- What is returned, after how many attempts, and the waits between them.
pub record Retried {ℓ} (A : Type ℓ) : Type ℓ where
  pub value : A
  pub err : MaybeError
  pub attempts : ℕ
  pub waits : List ℕ

-- `draw` is the random number below its argument.
unfoldable pub retry_backoff : (ℕ → ℕ) → ℕ → ℕ → ℕ
retry_backoff draw attempt base =
    let delay = base * 2 ^ (attempt - 1) in
    let jitter = delay / retry_jitter_divisor in
    if jitter == 0 then delay else delay + draw (jitter + 1)

abbrev pub too_late : Option ℕ → ℕ → Bool
too_late none delay = false
too_late (some left) delay = leb left delay

module _ {ℓ} {A : Type ℓ} (w : World A) (nothing : A) (base : ℕ) where
  unfoldable pub retry_delay : ℕ → ℕ
  unfolding retry_backoff
  retry_delay n = max (retry_backoff (w.random n) n base) (w.attempt n).server_delay

  abbrev pub answered : ℕ → List ℕ → Retried A
  answered n waits = record {
    value = (w.attempt n).value;
    err = (w.attempt n).err;
    attempts = n;
    waits = waits;
  }

  abbrev pub interrupted : MaybeError → ℕ → List ℕ → Retried A
  interrupted e n waits = record { value = nothing; err = e; attempts = n; waits = waits }

  unfoldable pub retry_loop : ℕ → ℕ → List ℕ → Option (Retried A)
  retry_loop zero n waits = none
  retry_loop (suc fuel) n waits =
      let a = w.attempt n in
      let delay = retry_delay n in
      let rest = retry_loop fuel (n + 1) (waits ++ delay ∷ []) in
      if not a.retry || n == max_network_attempts
      then some (answered n waits)
      else if is_some (w.cancelled n)
      then some (interrupted (w.cancelled n) n waits)
      else if ltb max_retry_delay delay
      then some (answered n waits)
      else if too_late (w.until_deadline n) delay
      then some (answered n waits)
      else if is_some (w.woken n)
      then some (interrupted (w.woken n) n waits)
      else rest

  unfoldable pub retry_with_backoff : ℕ → Option (Retried A)
  unfolding retry_loop
  retry_with_backoff fuel = retry_loop fuel 1 []

  -- Whether each attempt before the nth asked for another one.
  unfoldable pub each_asked : ℕ → Bool
  each_asked zero = true
  each_asked (suc k) = (k == 0 || (w.attempt k).retry) && each_asked k

  -- What the last attempt returned, or the error of a context that was done.
  abbrev pub FromLast : Retried A → Type ℓ
  FromLast r = (r.value ≡ (w.attempt r.attempts).value) × (r.err ≡ (w.attempt r.attempts).err)

  abbrev pub FromContext : Retried A → Type ℓ
  FromContext r =
      (r.value ≡ nothing)
      × (is_some r.err ≡ true)
      × ((r.err ≡ w.cancelled r.attempts) ⊎ (r.err ≡ w.woken r.attempts))

unfoldable pub retryable_http_status : ℕ → Bool
retryable_http_status status =
    status == 408
    || status == 425
    || status == 429
    || status == 500
    || status == 502
    || status == 503
    || status == 504

-- A product of durations in int64, with 0 for a negative one.
unfoldable pub non_negative : ℕ → ℕ
non_negative d = if ltb (d % 2 ^ 64) (2 ^ 63) then d % 2 ^ 64 else 0

-- The header Retry-After: `atoi` is strconv.Atoi, with `none` for an error or a negative number, and
-- `parse_time` http.ParseTime.
unfoldable pub response_retry_after : (Text → Option ℕ) → (Text → Option ℕ) → Option Text → ℕ → ℕ
unfolding trim_space non_negative
response_retry_after atoi parse_time none now = 0
response_retry_after atoi parse_time (some header) now =
    let raw = trim_space header in
    let by_date : ℕ = elim (parse_time raw) [ none ↦ 0 | some at ↦ min (2 ^ 63 - 1) (at - now) ] in
    elim (atoi raw) [
      | none ↦ by_date
      | some seconds ↦ if ltb 0 seconds then non_negative (seconds * 1_000_000_000) else by_date
    ]

-- `is_network` is errors.As for net.Error, and `done` ctx.Err().
unfoldable pub transient_network_error : (MaybeError → Bool) → MaybeError → MaybeError → Bool
unfolding error_is
transient_network_error is_network done err =
    if not (is_some err) || is_some done || error_is err context_canceled
    then false
    else if error_is err context_deadline_exceeded
    then true
    else is_network err
