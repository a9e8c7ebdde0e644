-- ===== src/Cycle/Store/Policy.antt =====
-- The tasks that stand for a CAA policy, by their names.
use domain_monitor.Base.{
  ◌≡◌, inl, inr, Bool, true, false, ◌&&◌, [], ◌∷◌, ◌++◌, some, arith, ==_iff, Option-cases,
  Bool-cases,
}
use domain_monitor.Text.{Text, text_beq, text_beq_iff, strip_prefix, has_prefix, trim_prefix}
use domain_monitor.Types.Config.{internal_caa_task_prefix}

strip_prefix-append : (s p rest : Text) → strip_prefix s p ≡ some rest → s ≡ p ++ rest
unfolding strip_prefix
strip_prefix-append s [] rest h = ground (arith, h)
strip_prefix-append [] (q ∷ p) rest h = ground (arith, h)
strip_prefix-append (c ∷ s) (q ∷ p) rest h =
    ground (arith, h, ==_iff c q, strip_prefix-append s p rest)

-- Two names with the prefix are the same where what stands behind it is the same.
same_behind :
    (p a b : Text)
    → has_prefix a p ≡ true
    → has_prefix b p ≡ true
    → trim_prefix a p ≡ trim_prefix b p
    → a ≡ b
unfolding has_prefix trim_prefix
same_behind p a b ha hb e = elim (Option-cases (strip_prefix a p)) [
  | inl n ↦ ground (arith, ha, n)
  | inr (x, m) ↦ elim (Option-cases (strip_prefix b p)) [
    | inl n ↦ ground (arith, hb, n)
    | inr (y, n) ↦ ground (arith, e, m, n, strip_prefix-append a p x m, strip_prefix-append b p y n)
  ]
]

abbrev pub is_policy : Text → Bool
is_policy name = has_prefix name internal_caa_task_prefix

abbrev pub policy_owner : Text → Text
policy_owner name = trim_prefix name internal_caa_task_prefix

pub policies_apart :
    (a b : Text)
    → is_policy b ≡ true
    → text_beq a b ≡ false
    → (is_policy a && text_beq (policy_owner a) (policy_owner b)) ≡ false
policies_apart a b hb h =
    elim (Bool-cases (is_policy a && text_beq (policy_owner a) (policy_owner b))) [
      | inr e ↦ e
      | inl e ↦
          let same = (text_beq_iff (policy_owner a) (policy_owner b)).0 (ground (arith, e)) in
          let equal = same_behind internal_caa_task_prefix a b (ground (arith, e)) hb same in
          ground (arith, h, (text_beq_iff a b).1 equal)
    ]
