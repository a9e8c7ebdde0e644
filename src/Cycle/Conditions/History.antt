-- ===== src/Cycle/Conditions/History.antt =====
-- What the history of conditions remembers.
use domain_monitor.Base.{
  ◌≡◌, Bool, false, not, ◌&&◌, ◌||◌, List, [], Option, none, some, arith, if◌then◌else◌, is_some,
  lookup, lookup-insert, lookup-delete, lookup-retain,
}
use domain_monitor.Text.{Text}
use domain_monitor.Types.Status.{CheckStatus}
use domain_monitor.Types.Condition.{Time, StateCondition, is_zero}
use domain_monitor.Types.Config.{AppConfig}
use domain_monitor.Types.Results.{CheckState}
use domain_monitor.Notify.Order.{Alert}
use domain_monitor.Cycle.Expired.{ActiveChecks}
use domain_monitor.Cycle.Conditions.{
  CheckType, ConditionKey, same_key, key_eq, History, alertable_status, since_of,
  apply_condition_since, append_condition_alert,
}
use domain_monitor.Cycle.Conditions.Collect.{
  Progress, collect_active_domains, collect_active_records, is_live, prune_condition_history,
  prepare_conditions_and_alerts,
}

-- What is remembered of a condition.
unfoldable pub remembered :
    Time → StateCondition → CheckStatus → Option StateCondition → Option StateCondition
unfolding is_zero alertable_status since_of
remembered now cond status before =
    if is_zero cond || not (alertable_status status)
    then none
    else some (record { code = cond.code; target = []; since = since_of now cond before })

-- On every input: a check's entry of the history becomes what is remembered of its condition (its
-- code and start, or nothing where there is no condition or the status raises no alert), whether or not
-- alerts are suppressed; no other entry changes.
pub append_condition_alert-history :
    (now : Time) (alerts : List Alert) (name domain : Text) (check : CheckType)
    (cond : StateCondition) (status : CheckStatus) (suppress : Bool) (prev : History)
    (j : ConditionKey)
    → let key : ConditionKey = record { check = check; domain = domain } in
      lookup j (append_condition_alert now alerts name domain check cond status suppress prev).prev
      ≡ (if same_key key j then remembered now cond status (lookup key prev) else lookup j prev)
unfolding append_condition_alert remembered apply_condition_since
append_condition_alert-history now alerts name domain check cond status suppress prev j =
    let key : ConditionKey = record { check = check; domain = domain } in
    let entry : StateCondition = record {
      code = cond.code;
      target = [];
      since = since_of now cond (lookup key prev);
    } in
    ground (arith, lookup-insert key j entry prev, lookup-delete key j prev)

live_or_gone :
    (live : Bool) (before after : Option StateCondition)
    → after ≡ (if live then before else none)
    → (is_some after && not live) ≡ false
live_or_gone live before after h = ground (arith, h)

-- After a cycle the history has entries only of conditions that are live in the state the cycle
-- leaves: the result is there, its condition has a code, and its status raises alerts.
prepare_conditions_and_alerts-live :
    (now : Time) (state : CheckState) (cfg : AppConfig) (active : ActiveChecks) (prev : History)
    (key : ConditionKey)
    → let p = prepare_conditions_and_alerts now state cfg active prev in
      (is_some (lookup key p.prev) && not (is_live p.state key)) ≡ false
unfolding prepare_conditions_and_alerts prune_condition_history
prepare_conditions_and_alerts-live now state cfg active prev key =
    let start : Progress = record { alerts = []; state = state; prev = prev } in
    let p =
      collect_active_records now cfg active.dns_records
        (collect_active_domains now cfg active.domains start) in
    live_or_gone (is_live p.state key) (lookup key p.prev) _
      (lookup-retain (λ k. is_live p.state k) key p.prev)
