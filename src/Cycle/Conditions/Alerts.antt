-- ===== src/Cycle/Conditions/Alerts.antt =====
-- What the alerts of a cycle show, and to whom.
use domain_monitor.Base.{
  ◌≡◌, refl, inl, inr, ap, sym, ◌∙◌, Bool, true, not, ◌||◌, List, [], ◌∷◌, ◌++◌, map, arith,
  Bool-cases, lookup,
}
use domain_monitor.Text.{Text, text_eq}
use domain_monitor.Types.Status.{CheckStatus}
use domain_monitor.Types.Condition.{Time, StateCondition, is_zero}
use domain_monitor.Types.Names.{result_code_string}
use domain_monitor.Types.Config.{DomainConfig}
use domain_monitor.Notify.Order.{Alert}
use domain_monitor.Cycle.Conditions.{
  CheckType, ConditionKey, key_eq, History, alertable_status, since_of, format_duration_since,
  apply_condition_since, condition_alert, append_condition_alert, append_additional_finding_alerts,
  condition_alert_message,
}
use domain_monitor.Cycle.Conditions.Collect.{
  Progress, collect_rdap, collect_email, collect_caa, collect_dnssec, collect_ns_health,
  collect_domain_alerts,
}

append_condition_alert-suppressed :
    (now : Time) (alerts : List Alert) (name domain : Text) (check : CheckType)
    (cond : StateCondition) (status : CheckStatus) (prev : History)
    → (append_condition_alert now alerts name domain check cond status true prev).alerts ≡ alerts
unfolding append_condition_alert
append_condition_alert-suppressed now alerts name domain check cond status prev = ground arith

module _ (now : Time) (cfg : DomainConfig) (quiet : cfg.suppress_alerts ≡ true) where
  collect_rdap-suppressed : (p : Progress) → (collect_rdap now cfg p).alerts ≡ p.alerts
  unfolding collect_rdap append_condition_alert
  collect_rdap-suppressed p = ground (arith, quiet)

  collect_email-suppressed : (p : Progress) → (collect_email now cfg p).alerts ≡ p.alerts
  unfolding collect_email append_condition_alert append_additional_finding_alerts
  collect_email-suppressed p = ground (arith, quiet)

  collect_caa-suppressed : (p : Progress) → (collect_caa now cfg p).alerts ≡ p.alerts
  unfolding collect_caa append_condition_alert
  collect_caa-suppressed p = ground (arith, quiet)

  collect_dnssec-suppressed : (p : Progress) → (collect_dnssec now cfg p).alerts ≡ p.alerts
  unfolding collect_dnssec append_condition_alert
  collect_dnssec-suppressed p = ground (arith, quiet)

  collect_ns_health-suppressed : (p : Progress) → (collect_ns_health now cfg p).alerts ≡ p.alerts
  unfolding collect_ns_health append_condition_alert
  collect_ns_health-suppressed p = ground (arith, quiet)

  -- A domain with suppressed alerts adds none in a cycle, whatever its checks found.
  pub collect_domain_alerts-suppressed :
      (p : Progress) → (collect_domain_alerts now cfg p).alerts ≡ p.alerts
  unfolding collect_domain_alerts
  collect_domain_alerts-suppressed p =
      let after_rdap = collect_rdap now cfg p in
      let after_email = collect_email now cfg after_rdap in
      let after_caa = collect_caa now cfg after_email in
      let after_dnssec = collect_dnssec now cfg after_caa in
      collect_ns_health-suppressed after_dnssec
      ∙ collect_dnssec-suppressed after_caa
      ∙ collect_caa-suppressed after_email
      ∙ collect_email-suppressed after_rdap
      ∙ collect_rdap-suppressed p

abbrev pub redactions : List Alert → List Text
redactions alerts = map (λ (a : Alert). a.redacted) alerts

map-append {ℓ κ} :
    {A : Type ℓ} {B : Type κ} (f : A → B) (xs ys : List A) → map f (xs ++ ys) ≡ map f xs ++ map f ys
map-append f [] ys = refl
map-append f (x ∷ xs) ys = ap (λ zs. f x ∷ zs) (map-append f xs ys)

-- The redacted texts do not show what a condition is about: two conditions that differ in their
-- targets alone give the same redacted alerts.
pub append_condition_alert-redacted :
    (now : Time) (alerts : List Alert) (name domain : Text) (check : CheckType)
    (cond : StateCondition) (target : Text) (status : CheckStatus) (suppress : Bool)
    (prev : History)
    → redactions
        (append_condition_alert now alerts name domain check cond status suppress prev).alerts
      ≡ redactions
          (append_condition_alert now alerts name domain check
            (record cond { target = target })
            status
            suppress
            prev).alerts
unfolding append_condition_alert apply_condition_since condition_alert is_zero since_of
    condition_alert_message
append_condition_alert-redacted now alerts name domain check cond target status suppress prev =
    let silent = is_zero cond || not (alertable_status status) in
    let key : ConditionKey = record { check = check; domain = domain } in
    let since = since_of now cond (lookup key prev) in
    let text = result_code_string cond.code in
    let duration = format_duration_since now since in
    elim (Bool-cases silent) [
      | inl e ↦ rw e refl
      | inr e ↦ elim (Bool-cases (is_zero cond)) [
        | inl z ↦ ground (arith, e, z)
        | inr z ↦ elim (Bool-cases suppress) [
          | inl q ↦ rw (e, z, q) refl
          | inr q ↦
              rw (e, z, q)
                (map-append (λ (a : Alert). a.redacted) alerts
                    (condition_alert name domain check status text cond.target duration ∷ [])
                  ∙ sym (
                      map-append (λ (a : Alert). a.redacted) alerts
                        (condition_alert name domain check status text target duration ∷ [])))
        ]
      ]
    ]
