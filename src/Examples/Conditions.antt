-- ===== src/Examples/Conditions.antt =====
-- Examples for the conditions of a cycle and their alerts.
use domain_monitor.Base.{◌≡◌, refl, true, false, [], ◌∷◌, some, if◌then◌else◌, lookup}
use domain_monitor.Text.{codes, text_beq}
use domain_monitor.Types.Code
use domain_monitor.Types.Status.{failed}
use domain_monitor.Types.Condition.{Time, condition, StateCondition, is_zero}
use domain_monitor.Cycle.Expired.{ActiveChecks}
use domain_monitor.Cycle.Conditions.{
  dns_check, ConditionKey, key_eq, History, same_key, alertable_status, append_condition_alert,
}
use domain_monitor.Cycle.Conditions.Collect.{Progress, collect_domain_alerts, result_at}
use domain_monitor.Cycle.Conditions.Live.{reports, entry}
use domain_monitor.Cycle.Conditions.Persistence.{Cycle, after_cycles, Reports, since_persists}
use domain_monitor.Cycle.Conditions.History.{remembered, append_condition_alert-history}
use domain_monitor.Cycle.Conditions.Alerts.{
  redactions, collect_domain_alerts-suppressed, append_condition_alert-redacted,
}
use domain_monitor.Examples.Expired.{cfg, state, domain_named}

abbrev key : ConditionKey
key = record { check = dns_check; domain = codes "one" }

abbrev cond : StateCondition
cond = condition Code.dns_lookup_failed (codes "1.2.3.4")

append_condition_alert-history_example :
    lookup key
      (append_condition_alert 7 [] (codes "one") (codes "one") dns_check cond failed false []).prev
    ≡ (if same_key key key then remembered 7 cond failed (lookup key []) else lookup key [])
append_condition_alert-history_example =
    append_condition_alert-history 7 [] (codes "one") (codes "one") dns_check cond failed false []
      key

abbrev active : ActiveChecks
active = record { domains = 0 ∷ 1 ∷ []; rdap_domains = 0 ∷ 1 ∷ []; dns_records = 0 ∷ 1 ∷ [] }

abbrev opening : Progress
opening = record { alerts = []; state = state; prev = [] }

collect_domain_alerts-suppressed_example :
    (collect_domain_alerts 7
      (record (domain_named (codes "a.org") false) { suppress_alerts = true })
      opening).alerts
    ≡ []
collect_domain_alerts-suppressed_example =
    collect_domain_alerts-suppressed 7
      (record (domain_named (codes "a.org") false) { suppress_alerts = true }) refl opening

append_condition_alert-redacted_example :
    redactions
      (append_condition_alert 7 []
        (codes "one")
        (codes "one")
        dns_check
        cond
        failed
        false
        []).alerts
    ≡ redactions
        (append_condition_alert 7 []
          (codes "one")
          (codes "one")
          dns_check
          (condition Code.dns_lookup_failed (codes "5.6.7.8"))
          failed
          false
          []).alerts
append_condition_alert-redacted_example =
    append_condition_alert-redacted 7 [] (codes "one") (codes "one") dns_check cond
      (codes "5.6.7.8") failed false []

-- The record fails in two cycles, with the start of an earlier one.
abbrev cycle_at : Time → Cycle
cycle_at now = record { now = now; state = state; cfg = cfg; active = active }

abbrev earlier : History
earlier = (key, entry Code.dns_lookup_failed 7) ∷ []

record_fails : (now : Time) → Reports key Code.dns_lookup_failed (cycle_at now)
unfolding result_at reports is_zero alertable_status lookup text_beq
record_fails now = refl

since_persists_example :
    lookup key (after_cycles (cycle_at 9 ∷ cycle_at 11 ∷ []) earlier)
    ≡ some (entry Code.dns_lookup_failed 7)
unfolding lookup same_key text_beq
since_persists_example =
    since_persists key Code.dns_lookup_failed 7 (cycle_at 9 ∷ cycle_at 11 ∷ []) earlier refl
      (record_fails 9, (record_fails 11, tt))
