-- ===== src/Examples/Notify.antt =====
-- Examples for the delivery of alerts.
use domain_monitor.Base.{
  ℕ, zero, suc, ◌+◌, ◌-◌, ◌≤◌, ◌<◌, ◌≡◌, ◌⊎◌, refl, List, [], ◌∷◌, ◌++◌, take, length, arith,
  is_empty, if◌then◌else◌,
}
use domain_monitor.Text.{Text, codes, byte_len, trim_space}
use domain_monitor.Types.Status.{AlertPriority, priority_warning, priority_high}
use domain_monitor.Notify.Order.{Alert, sort_alerts}
use domain_monitor.Notify.Queue.{queued_alert, new_notification_manager, dispatch_cycle_alerts}
use domain_monitor.Notify.Queue.Best.{as_queued, dispatch_cycle_alerts-best}
use domain_monitor.Notify.Report.{
  truncate_alert_bytes, bound_alert_payload, format_ntfy_message, build_cycle_report, ntfy_body,
}
use domain_monitor.Notify.Report.Bounds.{bound_alert_payload_bounded, build_cycle_report_bounded}

abbrev alert : Text → AlertPriority → Alert
alert domain priority =
    queued_alert (codes "DNS failed") (codes "DNS failed") priority [] domain (codes "site")

abbrev alerts : List Alert
alerts = alert (codes "b.org") priority_warning ∷ alert (codes "a.org") priority_high ∷ []

abbrev url : Text
url = codes "https://ntfy.example"

dispatch_runs :
    (dispatch_cycle_alerts alerts (new_notification_manager url [])).alert_batch
    ≡ alert (codes "a.org") priority_high ∷ alert (codes "b.org") priority_warning ∷ []
unfolding dispatch_cycle_alerts domain_monitor.Base.sort domain_monitor.Notify.Order.may_precede
dispatch_runs = refl

dispatch_cycle_alerts-best_example :
    let queue = dispatch_cycle_alerts alerts (new_notification_manager url []) in
    (queue.alert_batch ≡ take 64 (sort_alerts (as_queued alerts)))
    × (queue.omitted ≡ length alerts - 64)
dispatch_cycle_alerts-best_example = dispatch_cycle_alerts-best url [] alerts refl

truncate_runs :
    truncate_alert_bytes (codes "one two three four five six seven") 31
    ≡ codes "on [truncated; see local state]"
unfolding truncate_alert_bytes
truncate_runs = refl

bound_alert_payload_bounded_example :
    (byte_len (bound_alert_payload (codes "text")) ≤ 3500)
    × (length (bound_alert_payload (codes "text")) ≤ 1021)
bound_alert_payload_bounded_example = bound_alert_payload_bounded (codes "text")

format_runs : format_ntfy_message (alert (codes "DNS") priority_high) ≡ codes "[site] site failed"
unfolding format_ntfy_message queued_alert
format_runs = refl

build_cycle_report_bounded_example :
    let report = build_cycle_report (λ t. t) alerts 2 in
    (byte_len (ntfy_body report) ≤ 3500)
    × (length (ntfy_body report) ≤ 1021)
    × (ntfy_body report
        ≡ trim_space
            (if is_empty report.redacted then format_ntfy_message report else report.redacted))
build_cycle_report_bounded_example = build_cycle_report_bounded (λ t. t) alerts 2

-- 166 runes of one byte, then 834 of four.
abbrev repeated : ℕ → ℕ → Text → Text
repeated zero c s = s
repeated (suc n) c s = c ∷ repeated n c s

abbrev wide : Text
wide = repeated 166 b'a' (repeated 834 0x1f600 [])

-- The cut by bytes adds the notice to a text that already has 1000 runes at most, so that the
-- result can have more than MaxAlertMessageRunes of them.
wide_exceeds : length (bound_alert_payload wide) ≡ 1021
unfolding bound_alert_payload
wide_exceeds = refl
