-- ===== src/Notify/Queue.antt =====
-- The bounded queue of alerts: Dispatch and takeAlertBatch in src/internal/monitor/notify.go,
-- under the lock of the NotificationManager; the queue is passed as a state.
pub mod Best
use domain_monitor.Base.{
  ℕ, zero, suc, ◌+◌, ◌-◌, ◌≤◌, ◌≡◌, refl, ap, ◌∙◌, Bool, true, false, not, List, [], ◌∷◌, ◌++◌,
  arith, ltb, if◌then◌else◌, is_empty, length, take, length-append, length-take, length-sort,
  take-sort, sort,
}
use domain_monitor.Text.{Text}
use domain_monitor.Types.Status.{AlertPriority}
use domain_monitor.Notify.Order.{
  Alert, may_precede, sort_alerts, may_precede_total, may_precede_trans,
}

abbrev pub max_cycle_report_items : ℕ
max_cycle_report_items = 64

pub record NotificationManager : Type 0 where
  pub ntfy_url : Text
  pub ntfy_auth : Text
  pub alert_batch : List Alert
  pub omitted : ℕ

-- NewNotificationManager
abbrev pub new_notification_manager : Text → Text → NotificationManager
new_notification_manager url auth = record {
  ntfy_url = url;
  ntfy_auth = auth;
  alert_batch = [];
  omitted = 0;
}

-- The alert that Dispatch makes of its arguments: the check and the report id stay empty.
unfoldable pub queued_alert : Text → Text → AlertPriority → Text → Text → Text → Alert
queued_alert message redacted priority tag domain name = record {
  message = message;
  redacted = redacted;
  priority = priority;
  tag = tag;
  domain = domain;
  name = name;
  check = [];
  report_id = [];
}

-- `append`, sort, and the cut at MaxCycleReportItems.
unfoldable pub enqueue : Alert → NotificationManager → NotificationManager
unfolding sort_alerts
enqueue alert nm =
    let batch = sort_alerts (nm.alert_batch ++ alert ∷ []) in
    if is_empty nm.ntfy_url
    then nm
    else if ltb max_cycle_report_items (length batch)
    then record nm { alert_batch = take max_cycle_report_items batch; omitted = suc nm.omitted }
    else record nm { alert_batch = batch }

unfoldable pub dispatch :
    Text → Text → AlertPriority → Text → Text → Text → NotificationManager → NotificationManager
unfolding queued_alert enqueue
dispatch message redacted priority tag domain name nm =
    enqueue (queued_alert message redacted priority tag domain name) nm

unfoldable pub take_alert_batch : NotificationManager → (List Alert × ℕ) × NotificationManager
take_alert_batch nm = ((nm.alert_batch, nm.omitted), record nm { alert_batch = []; omitted = 0 })

-- dispatchCycleAlerts of src/internal/monitor/runtime.go: one Dispatch for each alert of a cycle.
unfoldable pub dispatch_cycle_alerts : List Alert → NotificationManager → NotificationManager
unfolding dispatch
dispatch_cycle_alerts [] nm = nm
dispatch_cycle_alerts (a ∷ alerts) nm =
    dispatch_cycle_alerts alerts (dispatch a.message a.redacted a.priority a.tag a.domain a.name nm)
