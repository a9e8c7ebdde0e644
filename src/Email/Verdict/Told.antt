-- ===== src/Email/Verdict/Told.antt =====
-- What the conditions of an e-mail check have in common.
use domain_monitor.Base.{
  ◌≡◌, refl, inl, inr, Bool, true, not, ◌&&◌, List, [], ◌∷◌, ◌++◌, map, none, some, arith, ◌==◌,
  Bool-cases, is_empty, is_some, all, keep, contains,
}
use domain_monitor.Text.{Text, text_eq}
use domain_monitor.Errors.{MaybeError, Sentinel, error_is}
use domain_monitor.Types.Code
use domain_monitor.Types.Code.{ResultCode}
use domain_monitor.Types.Status.{ok, same_status}
use domain_monitor.Types.Condition.{StateCondition, condition}
use domain_monitor.Email.Verdict.{mx_differences, EmailProgress}

-- A condition that reports something, and not a success.
abbrev pub tells : StateCondition → Bool
tells c = not (c.code == Code.no_code) && not (c.code == Code.email_verified)

-- The status is ok exactly where no condition was found.
pub record Told (p : EmailProgress) : Type 0 where
  pub settled : same_status p.status ok ≡ is_empty p.conditions
  pub telling : all tells p.conditions ≡ true

pub all-append :
    (p : StateCondition → Bool) (xs ys : List StateCondition)
    → all p (xs ++ ys) ≡ (all p xs && all p ys)
unfolding all
all-append p [] ys = refl
all-append p (x ∷ xs) ys = ground (arith, all-append p xs ys)

pub is_empty-append :
    (xs ys : List StateCondition) → is_empty (xs ++ ys) ≡ (is_empty xs && is_empty ys)
is_empty-append [] ys = refl
is_empty-append (x ∷ xs) ys = refl

tells-map :
    (code : ResultCode) (xs : List Text)
    → tells (condition code []) ≡ true
    → all tells (map (condition code) xs) ≡ true
unfolding all
tells-map code [] h = refl
tells-map code (x ∷ xs) h = ground (arith, tells-map code xs h)

is_empty-map-keep :
    (code : ResultCode) (p : Text → Bool) (xs : List Text)
    → is_empty (map (condition code) (keep (λ x. not (p x)) xs)) ≡ all p xs
unfolding keep all
is_empty-map-keep code p [] = refl
is_empty-map-keep code p (x ∷ xs) = elim (Bool-cases (p x)) [
  | inl e ↦ rw (keep, e) (is_empty-map-keep code p xs)
  | inr e ↦ rw (keep, e) refl
]

pub mx_differences-tells :
    (expected live : List Text) → all tells (mx_differences expected live) ≡ true
unfolding mx_differences
mx_differences-tells expected live =
    let missing = keep (λ e. not (contains live e)) expected in
    let extra = keep (λ f. not (contains expected f)) live in
    ground (
      arith,
      all-append tells (map (condition Code.email_missing_mx) missing)
          (map (condition Code.email_unauthorized_mx) extra),
      tells-map Code.email_missing_mx missing refl,
      tells-map Code.email_unauthorized_mx extra refl,
    )

pub is_empty-mx_differences :
    (expected live : List Text)
    → is_empty (mx_differences expected live)
      ≡ (all (contains live) expected && all (contains expected) live)
unfolding mx_differences
is_empty-mx_differences expected live =
    let missing = keep (λ e. not (contains live e)) expected in
    let extra = keep (λ f. not (contains expected f)) live in
    ground (
      arith,
      is_empty-append (map (condition Code.email_missing_mx) missing)
          (map (condition Code.email_unauthorized_mx) extra),
      is_empty-map-keep Code.email_missing_mx (contains live) expected,
      is_empty-map-keep Code.email_unauthorized_mx (contains expected) live,
    )

pub error_is-is_some : (e : MaybeError) (s : Sentinel) → error_is e s ≡ true → is_some e ≡ true
unfolding error_is
error_is-is_some none s h = h
error_is-is_some (some e) s h = refl
