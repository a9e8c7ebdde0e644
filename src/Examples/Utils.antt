-- ===== src/Examples/Utils.antt =====
-- Examples for the text normalisation.
use domain_monitor.Base.{
  ℕ, ◌+◌, ◌≤◌, ◌≡◌, ◌⊎◌, refl, true, false, List, [], ◌∷◌, none, some, contains, distinct, ◌==◌,
  if◌then◌else◌, length, All, arith,
}
use domain_monitor.Errors.{Error}
use domain_monitor.Utils.Retry.{
  World, Retried, retry_with_backoff, each_asked, FromLast, FromContext,
}
use domain_monitor.Utils.Retry.Bounded.{retry_with_backoff_bounded}
use domain_monitor.Text.{Text, codes, text_eq}
use domain_monitor.Utils.{deduplicate_non_empty_strings}

abbrev items : List Text
items = codes " a " ∷ codes "b" ∷ codes "" ∷ codes "a" ∷ []

deduplicate_runs : deduplicate_non_empty_strings items ≡ codes "a" ∷ codes "b" ∷ []
unfolding deduplicate_non_empty_strings domain_monitor.Base.lookup domain_monitor.Base.insert
    domain_monitor.Text.text_beq
deduplicate_runs = refl

abbrev lost : Error
lost = record { message = codes "connection lost"; chain = [] }

-- The first attempt asks for another one, and the second one succeeds.
abbrev flaky : World ℕ
flaky = record {
  attempt = λ k.
      if k == 1
      then record { value = 0; retry = true; server_delay = 2_000_000_000; err = some lost }
      else record { value = 7; retry = false; server_delay = 0; err = none };
  cancelled = λ k. none;
  woken = λ k. none;
  random = λ k n. 0;
  until_deadline = λ k. none;
}

retries_once :
    retry_with_backoff flaky 0 500_000_000 3
    ≡ some (record { value = 7; err = none; attempts = 2; waits = 2_000_000_000 ∷ [] })
unfolding retry_with_backoff domain_monitor.Utils.Retry.retry_delay
retries_once = refl

retry_with_backoff_bounded_example :
    (r : Retried ℕ) × (retry_with_backoff flaky 0 500_000_000 3 ≡ some r)
    × (1 ≤ r.attempts)
    × (r.attempts ≤ 3)
    × (length r.waits + 1 ≡ r.attempts)
    × All (λ d. d ≤ 30_000_000_000) r.waits
    × (each_asked flaky 0 500_000_000 r.attempts ≡ true)
    × (FromLast flaky 0 500_000_000 r ⊎ FromContext flaky 0 500_000_000 r)
retry_with_backoff_bounded_example = retry_with_backoff_bounded flaky 0 500_000_000 3 (omega arith)
