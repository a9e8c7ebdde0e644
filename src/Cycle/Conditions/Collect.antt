-- ===== src/Cycle/Conditions/Collect.antt =====
-- The conditions and alerts of a whole cycle: collectDomainAlerts, prepareConditionsAndAlerts and
-- pruneConditionHistory in src/internal/monitor/runtime.go.
use domain_monitor.Base.{
  ℕ, Bool, false, not, ◌||◌, List, [], ◌∷◌, Option, none, some, Map, lookup, insert, retain,
  get_elem?,
}
use domain_monitor.Text.{Text, text_eq}
use domain_monitor.Types.Status.{CheckStatus}
use domain_monitor.Types.Condition.{Time, StateCondition, is_zero}
use domain_monitor.Types.Config.{DomainConfig, DnsTask, AppConfig}
use domain_monitor.Types.Results.{CheckState}
use domain_monitor.Notify.Order.{Alert}
use domain_monitor.Cycle.Expired.{ActiveChecks}
use domain_monitor.Cycle.Expired.Dropped.{lookup_optional}
use domain_monitor.Cycle.Conditions.{
  rdap_check, dns_check, email_check, caa_check, dnssec_check, ns_health_check, ConditionKey,
  key_eq, History, alertable_status, append_condition_alert, append_additional_finding_alerts,
}

-- What the loops carry: the alerts so far, the state of the cycle and the history.
pub record Progress : Type 0 where
  pub alerts : List Alert
  pub state : CheckState
  pub prev : History

-- A write to a map that was read just before, and so is not nil.
unfoldable pub insert_optional {ℓ} :
    {V : Type ℓ} → Text → V → Option (Map Text V) → Option (Map Text V)
insert_optional k v none = none
insert_optional k v (some m) = some (insert k v m)

unfoldable pub collect_rdap : Time → DomainConfig → Progress → Progress
unfolding append_condition_alert
collect_rdap now cfg p = elim (lookup cfg.domain p.state.rdap) [
  | none ↦ p
  | some st ↦
      let done =
        append_condition_alert now p.alerts cfg.name cfg.domain rdap_check st.condition st.status
          cfg.suppress_alerts p.prev in
      record {
        alerts = done.alerts;
        state = record p.state {
          rdap = insert cfg.domain (record st { condition = done.cond }) p.state.rdap;
        };
        prev = done.prev;
      }
]

unfoldable pub collect_email : Time → DomainConfig → Progress → Progress
unfolding append_condition_alert append_additional_finding_alerts
collect_email now cfg p = elim (lookup cfg.domain p.state.email) [
  | none ↦ p
  | some st ↦
      let done =
        append_condition_alert now p.alerts cfg.name cfg.domain email_check st.condition st.status
          cfg.suppress_alerts p.prev in
      record {
        alerts =
            append_additional_finding_alerts now done.alerts st.findings done.cond cfg.name
              cfg.domain email_check st.status cfg.suppress_alerts;
        state = record p.state {
          email = insert cfg.domain (record st { condition = done.cond }) p.state.email;
        };
        prev = done.prev;
      }
]

unfoldable pub collect_caa : Time → DomainConfig → Progress → Progress
unfolding append_condition_alert lookup_optional insert_optional
collect_caa now cfg p = elim (lookup_optional cfg.domain p.state.caa) [
  | none ↦ p
  | some st ↦
      let done =
        append_condition_alert now p.alerts cfg.name cfg.domain caa_check st.condition st.status
          cfg.suppress_alerts p.prev in
      record {
        alerts = done.alerts;
        state = record p.state {
          caa = insert_optional cfg.domain (record st { condition = done.cond }) p.state.caa;
        };
        prev = done.prev;
      }
]

unfoldable pub collect_dnssec : Time → DomainConfig → Progress → Progress
unfolding append_condition_alert lookup_optional insert_optional
collect_dnssec now cfg p = elim (lookup_optional cfg.domain p.state.dnssec) [
  | none ↦ p
  | some st ↦
      let done =
        append_condition_alert now p.alerts cfg.name cfg.domain dnssec_check st.condition st.status
          cfg.suppress_alerts p.prev in
      record {
        alerts = done.alerts;
        state = record p.state {
          dnssec = insert_optional cfg.domain (record st { condition = done.cond }) p.state.dnssec;
        };
        prev = done.prev;
      }
]

unfoldable pub collect_ns_health : Time → DomainConfig → Progress → Progress
unfolding append_condition_alert lookup_optional insert_optional
collect_ns_health now cfg p = elim (lookup_optional cfg.domain p.state.ns_health) [
  | none ↦ p
  | some st ↦
      let done =
        append_condition_alert now p.alerts cfg.name cfg.domain ns_health_check st.condition
          st.status cfg.suppress_alerts p.prev in
      record {
        alerts = done.alerts;
        state = record p.state {
          ns_health =
              insert_optional cfg.domain (record st { condition = done.cond }) p.state.ns_health;
        };
        prev = done.prev;
      }
]

unfoldable pub collect_domain_alerts : Time → DomainConfig → Progress → Progress
unfolding collect_rdap collect_email collect_caa collect_dnssec collect_ns_health
collect_domain_alerts now cfg p =
    collect_ns_health now cfg (
      collect_dnssec now cfg (collect_caa now cfg (collect_email now cfg (collect_rdap now cfg p))))

-- The two loops of prepareConditionsAndAlerts. An index past the configuration would panic; the
-- indices come from the configuration itself.
unfoldable pub collect_active_domains : Time → AppConfig → List ℕ → Progress → Progress
unfolding collect_domain_alerts
collect_active_domains now cfg [] p = p
collect_active_domains now cfg (i ∷ indices) p = elim (get_elem? cfg.domains i) [
  | none ↦ collect_active_domains now cfg indices p
  | some d ↦ collect_active_domains now cfg indices (collect_domain_alerts now d p)
]

unfoldable pub collect_dns : Time → DnsTask → Progress → Progress
unfolding append_condition_alert
collect_dns now task p = elim (lookup task.name p.state.dns) [
  | none ↦ p
  | some st ↦
      let done =
        append_condition_alert now p.alerts task.name task.name dns_check st.condition st.status
          false p.prev in
      record {
        alerts = done.alerts;
        state = record p.state {
          dns = insert task.name (record st { condition = done.cond }) p.state.dns;
        };
        prev = done.prev;
      }
]

unfoldable pub collect_active_records : Time → AppConfig → List ℕ → Progress → Progress
unfolding collect_dns
collect_active_records now cfg [] p = p
collect_active_records now cfg (i ∷ indices) p = elim (get_elem? cfg.dns_records i) [
  | none ↦ collect_active_records now cfg indices p
  | some r ↦ collect_active_records now cfg indices (collect_dns now r p)
]

-- The status and the condition of the result that a key names, if it is there.
unfoldable pub result_at : CheckState → ConditionKey → Option (CheckStatus × StateCondition)
unfolding lookup_optional
result_at state key = elim key.check [
  | rdap_check ↦ elim (lookup key.domain state.rdap) [
    | none ↦ none
    | some r ↦ some (r.status, r.condition)
  ]
  | dns_check ↦ elim (lookup key.domain state.dns) [
    | none ↦ none
    | some r ↦ some (r.status, r.condition)
  ]
  | email_check ↦ elim (lookup key.domain state.email) [
    | none ↦ none
    | some r ↦ some (r.status, r.condition)
  ]
  | caa_check ↦ elim (lookup_optional key.domain state.caa) [
    | none ↦ none
    | some r ↦ some (r.status, r.condition)
  ]
  | dnssec_check ↦ elim (lookup_optional key.domain state.dnssec) [
    | none ↦ none
    | some r ↦ some (r.status, r.condition)
  ]
  | ns_health_check ↦ elim (lookup_optional key.domain state.ns_health) [
    | none ↦ none
    | some r ↦ some (r.status, r.condition)
  ]
]

unfoldable pub is_live : CheckState → ConditionKey → Bool
unfolding result_at is_zero alertable_status
is_live state key = elim (result_at state key) [
  | none ↦ false
  | some (status, cond) ↦ not (is_zero cond || not (alertable_status status))
]

unfoldable pub prune_condition_history : CheckState → History → History
unfolding is_live
prune_condition_history state prev = retain (λ key cond. is_live state key) prev

unfoldable pub prepare_conditions_and_alerts :
    Time → CheckState → AppConfig → ActiveChecks → History → Progress
unfolding collect_active_domains collect_active_records prune_condition_history
prepare_conditions_and_alerts now state cfg active prev =
    let start : Progress = record { alerts = []; state = state; prev = prev } in
    let p =
      collect_active_records now cfg active.dns_records
        (collect_active_domains now cfg active.domains start) in
    record p { prev = prune_condition_history p.state p.prev }
