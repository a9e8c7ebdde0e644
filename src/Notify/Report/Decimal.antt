-- ===== src/Notify/Report/Decimal.antt =====
-- The printed numbers.
use domain_monitor.Base.{
  ℕ, zero, suc, ◌+◌, ◌-◌, ◌*◌, ◌/◌, ◌%◌, ◌≤◌, ◌<◌, ◌≡◌, inl, inr, [], ◌∷◌, ◌++◌, Option, none, some,
  arith, ltb, Bool-cases, ◌∙◌, ap,
}
use domain_monitor.Text.{Text, digits_value}
use domain_monitor.Notify.Report.{decimal_digits, decimal}

abbrev then_digit : ℕ → Option ℕ → Option ℕ
then_digit d none = none
then_digit d (some n) = some (10 * n + d)

digits_value-append :
    (s : Text) (d acc : ℕ)
    → d < 10
    → digits_value (s ++ (b'0' + d) ∷ []) acc ≡ then_digit d (digits_value s acc)
unfolding digits_value
digits_value-append [] d acc h = ground (arith, h)
digits_value-append (c ∷ s) d acc h =
    ground (arith, digits_value-append s d (10 * acc + (c - b'0')) h)

digit_value : (d : ℕ) → d < 10 → digits_value ((b'0' + d) ∷ []) 0 ≡ some d
unfolding digits_value
digit_value d h = ground (arith, h)

decimal_digits-digits_value :
    (fuel n : ℕ) → n ≤ fuel → digits_value (decimal_digits fuel n) 0 ≡ some n
unfolding decimal_digits digits_value
decimal_digits-digits_value zero n h =
    digit_value (n % 10) (omega arith) ∙ ap some (omega (arith, h))
decimal_digits-digits_value (suc fuel) n h = elim (Bool-cases (ltb n 10)) [
  | inl small ↦ rw (small, decimal_digits) (digit_value n (ground (arith, small)))
  | inr large ↦
      rw (large, decimal_digits)
        (digits_value-append (decimal_digits fuel (n / 10)) (n % 10) 0 (omega arith)
          ∙ ap (then_digit (n % 10))
              (decimal_digits-digits_value fuel (n / 10) (ground (arith, h, large)))
          ∙ ap some (omega arith))
]

-- A printed number is read back as the number, so the fuel is enough for every number.
decimal_roundtrip : (n : ℕ) → digits_value (decimal n) 0 ≡ some n
unfolding decimal
decimal_roundtrip n = decimal_digits-digits_value n n (omega arith)
