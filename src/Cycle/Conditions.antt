-- ===== src/Cycle/Conditions.antt =====
-- The start times of conditions and the alerts of a cycle: src/internal/monitor/runtime.go, from
-- applyConditionSince to appendAdditionalFindingAlerts. The clock is an argument: all the readings
-- of one cycle are `now`.
pub mod History
pub mod Live
mod Steps
pub mod Persistence
pub mod Collect
pub mod Alerts
use domain_monitor.Base.{
  ℕ, arith, ◌≡◌, is_some, get_or_else, ◌+◌, ◌-◌, ◌*◌, ◌/◌, ◌%◌, Bool, true, false, not, ◌&&◌, ◌||◌,
  List, [], ◌∷◌, ◌++◌, Option, none, some, ltb, ◌==◌, if◌then◌else◌, Eq, Map, lookup, insert,
  delete, retain, get_elem?,
}
use domain_monitor.Text.{Text, codes, text_beq, text_beq_iff, text_eq}
use domain_monitor.Types.Status.{
  CheckStatus, unknown, failed, mismatch, hijacked, warning, same_status, AlertPriority,
  priority_warning, priority_high,
}
use domain_monitor.Types.Condition.{
  Time, StateCondition, condition, zero_condition, is_zero, Finding,
}
use domain_monitor.Types.Config.{DomainConfig, DnsTask, AppConfig}
use domain_monitor.Types.Names.{check_status_string, result_code_string}
use domain_monitor.Types.Results.{
  RdapState, DnsState, EmailState, DnssecResult, NsHealthResult, CaaResult, CheckState,
}
use domain_monitor.Notify.Order.{Alert}
use domain_monitor.Notify.Report.{decimal}
use domain_monitor.Cycle.Expired.{ActiveChecks}

-- The names of the checks; `CheckType` is the text that the source uses.
pub data CheckType : Type 0 where
  rdap_check dns_check email_check caa_check dnssec_check ns_health_check : CheckType

abbrev pub check_number : CheckType → ℕ
check_number rdap_check = 0
check_number dns_check = 1
check_number email_check = 2
check_number caa_check = 3
check_number dnssec_check = 4
check_number ns_health_check = 5

abbrev pub check_name : CheckType → Text
check_name rdap_check = codes "RDAP"
check_name dns_check = codes "DNS"
check_name email_check = codes "Email"
check_name caa_check = codes "CAA"
check_name dnssec_check = codes "DNSSEC"
check_name ns_health_check = codes "NSHealth"

pub record ConditionKey : Type 0 where
  pub check : CheckType
  pub domain : Text

unfoldable pub same_key : ConditionKey → ConditionKey → Bool
same_key a b = check_number a.check == check_number b.check && text_beq a.domain b.domain

same_check : (a b : CheckType) → (check_number a == check_number b) ≡ true → a ≡ b
same_check a b h = ground arith

pub same_key_sound : (a b : ConditionKey) → same_key a b ≡ true → a ≡ b
unfolding same_key
same_key_sound a b h = ground (arith, h, same_check a.check b.check, text_beq_iff a.domain b.domain)

pub same_key_refl : (a : ConditionKey) → same_key a a ≡ true
unfolding same_key
same_key_refl a = ground (arith, text_beq_iff a.domain a.domain)

instance abbrev pub key_eq : Eq ConditionKey
key_eq = record {
  beq = same_key;
  beq_iff = λ a b. (same_key_sound a b, λ e. rw e (same_key_refl b));
}

abbrev pub History : Type 0
History = Map ConditionKey StateCondition

unfoldable pub alertable_status : CheckStatus → Bool
alertable_status status =
    same_status status failed
    || same_status status mismatch
    || same_status status hijacked
    || same_status status warning

-- The start that a condition gets: that of the entry with the same code, or now.
unfoldable pub since_of : Time → StateCondition → Option StateCondition → Time
since_of now cond none = now
since_of now cond (some p) = if p.code == cond.code then p.since else now

unfoldable pub apply_condition_since :
    Time → StateCondition → ConditionKey → History → StateCondition × History
unfolding is_zero since_of
apply_condition_since now cond key prev =
    let since = since_of now cond (lookup key prev) in
    if is_zero cond then (cond, prev) else (
      record cond { since = since },
      insert key (record { code = cond.code; target = []; since = since }) prev,
    )

-- Round(time.Minute), and Duration.String of whole minutes.
abbrev pub minute : ℕ
minute = 60000000000

unfoldable pub format_duration_since : Time → Time → Text
unfolding decimal
format_duration_since now since =
    let minutes = (now - since + minute / 2) / minute in
    if minutes == 0
    then codes "just now"
    else if ltb minutes 60
    then decimal minutes ++ codes "m0s"
    else decimal (minutes / 60) ++ (codes "h" ++ (decimal (minutes % 60) ++ codes "m0s"))

unfoldable pub condition_alert_message : Text → Text → Text → Text → Text → Bool → Text
condition_alert_message check status code target duration redacted =
    check
    ++ (b' ' ∷ status
        ++ (codes ": "
            ++ (code
                ++ ((if not redacted then b' ' ∷ target else [])
                    ++ (codes " (Since: " ++ (duration ++ codes ")"))))))

unfoldable pub condition_priority : CheckStatus → AlertPriority
condition_priority status =
    if not (same_status status warning) then priority_high else priority_warning

-- The alert for a condition, or for a further finding.
unfoldable pub condition_alert : Text → Text → CheckType → CheckStatus → Text → Text → Text → Alert
unfolding condition_alert_message condition_priority check_status_string
condition_alert name domain check status code target duration = record {
  message =
      condition_alert_message (check_name check) (check_status_string status) code target duration
        false;
  redacted =
      condition_alert_message (check_name check) (check_status_string status) code [] duration true;
  priority = condition_priority status;
  tag = codes "skull";
  domain = domain;
  name = name;
  check = check_name check;
  report_id = [];
}

pub record Appended : Type 0 where
  pub alerts : List Alert
  pub cond : StateCondition
  pub prev : History

unfoldable pub append_condition_alert :
    Time
    → List Alert
    → Text
    → Text
    → CheckType
    → StateCondition
    → CheckStatus
    → Bool
    → History
    → Appended
unfolding is_zero alertable_status apply_condition_since condition_alert format_duration_since
    result_code_string
append_condition_alert now alerts name domain check cond status suppress prev =
    let key : ConditionKey = record { check = check; domain = domain } in
    let (dated, history) = apply_condition_since now cond key prev in
    let alert =
      condition_alert name domain check status (result_code_string dated.code) dated.target
        (format_duration_since now dated.since) in
    if is_zero cond || not (alertable_status status)
    then record { alerts = alerts; cond = cond; prev = delete key prev }
    else if suppress
    then record { alerts = alerts; cond = dated; prev = history }
    else record { alerts = alerts ++ alert ∷ []; cond = dated; prev = history }

-- The loop of appendAdditionalFindingAlerts.
unfoldable pub finding_alerts :
    Text → Text → CheckType → CheckStatus → StateCondition → Text → List Finding → List Alert
unfolding condition_alert result_code_string
finding_alerts name domain check status primary duration [] = []
finding_alerts name domain check status primary duration (f ∷ findings) =
    let rest = finding_alerts name domain check status primary duration findings in
    if f.code == primary.code && text_beq f.target primary.target
    then rest
    else condition_alert name domain check status (result_code_string f.code) f.target duration
      ∷ rest

unfoldable pub append_additional_finding_alerts :
    Time
    → List Alert
    → List Finding
    → StateCondition
    → Text
    → Text
    → CheckType
    → CheckStatus
    → Bool
    → List Alert
unfolding alertable_status finding_alerts format_duration_since
append_additional_finding_alerts now alerts findings primary name domain check status suppress =
    if suppress || not (alertable_status status)
    then alerts
    else alerts
      ++ finding_alerts name domain check status primary (format_duration_since now primary.since)
          findings
