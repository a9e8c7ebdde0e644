-- ===== src/Cycle/Conditions/Live.antt =====
-- What one report, and one write of a result, leave of a condition that is still reported.
use domain_monitor.Base.{
  ◌≡◌, ap, ◌∙◌, inl, inr, Bool, true, false, not, ◌&&◌, ◌||◌, List, [], Option, none, some, arith,
  ◌==◌, ==_iff, Option-cases, Bool-cases, lookup, insert, lookup-insert,
}
use domain_monitor.Text.{Text, text_beq_iff, text_eq}
use domain_monitor.Types.Code.{ResultCode}
use domain_monitor.Types.Status.{CheckStatus}
use domain_monitor.Types.Condition.{Time, StateCondition, is_zero}
use domain_monitor.Types.Results.{
  RdapState, DnsState, EmailState, CaaResult, DnssecResult, NsHealthResult, CheckState,
}
use domain_monitor.Notify.Order.{Alert}
use domain_monitor.Cycle.Expired.Dropped.{lookup_optional}
use domain_monitor.Cycle.Conditions.{
  CheckType, rdap_check, dns_check, email_check, caa_check, dnssec_check, ns_health_check,
  ConditionKey, same_key, same_key_sound, key_eq, History, alertable_status, append_condition_alert,
  apply_condition_since,
}
use domain_monitor.Cycle.Conditions.Collect.{insert_optional, result_at}
use domain_monitor.Cycle.Conditions.History.{remembered, append_condition_alert-history}

-- The result that a key names is there, has a condition of the code, and raises an alert.
unfoldable pub reports : ResultCode → Option (CheckStatus × StateCondition) → Bool
reports code none = false
reports code (some (status, cond)) =
    cond.code == code && not (is_zero cond) && alertable_status status

-- The entry of a condition in the history.
abbrev pub entry : ResultCode → Time → StateCondition
entry code since = record { code = code; target = []; since = since }

-- One report: the entry of the key stays, if the report is of another key, or of the condition.
pub appended-there :
    (key : ConditionKey) (code : ResultCode) (since now : Time) (alerts : List Alert)
    (name domain : Text) (check : CheckType) (cond : StateCondition) (status : CheckStatus)
    (suppress : Bool) (prev : History)
    → lookup key prev ≡ some (entry code since)
    → (not (same_key (record { check = check; domain = domain }) key)
        || reports code (some (status, cond)))
      ≡ true
    → lookup key
        (append_condition_alert now alerts name domain check cond status suppress prev).prev
      ≡ some (entry code since)
unfolding reports remembered
appended-there key code since now alerts name domain check cond status suppress prev e h =
    let own : ConditionKey = record { check = check; domain = domain } in
    append_condition_alert-history now alerts name domain check cond status suppress prev key
    ∙ elim (Bool-cases (same_key own key)) [
      | inr other ↦ ground (arith, other, e)
      | inl same ↦
          let at : lookup own prev ≡ some (entry code since) =
            ap (λ k. lookup k prev) (same_key_sound own key same) ∙ e in
          ground (arith, same, at, h, ==_iff cond.code code)
    ]

-- A report keeps the code of the condition.
pub appended-code :
    (now : Time) (alerts : List Alert) (name domain : Text) (check : CheckType)
    (cond : StateCondition) (status : CheckStatus) (suppress : Bool) (prev : History)
    (code : ResultCode)
    → let done = append_condition_alert now alerts name domain check cond status suppress prev in
      (not (reports code (some (status, cond))) || reports code (some (status, done.cond))) ≡ true
unfolding reports append_condition_alert apply_condition_since is_zero
appended-code now alerts name domain check cond status suppress prev code = ground arith

-- The result of a check whose condition is reported, where the key is that of the check.
pub own_reports :
    (key own : ConditionKey) (code : ResultCode) (state : CheckState)
    (r : CheckStatus × StateCondition)
    → result_at state own ≡ some r
    → reports code (result_at state key) ≡ true
    → (not (same_key own key) || reports code (some r)) ≡ true
own_reports key own code state r n live = elim (Bool-cases (same_key own key)) [
  | inr e ↦ ground (arith, e)
  | inl e ↦ let at = ap (result_at state) (same_key_sound own key e) in ground (arith, n, at, live)
]

pub rdap-live :
    (code : ResultCode) (state : CheckState) (old st : RdapState) (x : Text) (check : CheckType)
    (d : Text)
    → lookup x state.rdap ≡ some old
    → (not (reports code (some (old.status, old.condition)))
        || reports code (some (st.status, st.condition)))
      ≡ true
    → reports code (result_at state (record { check = check; domain = d })) ≡ true
    → reports code (
        result_at
          (record state { rdap = insert x st state.rdap })
          (record { check = check; domain = d }))
      ≡ true
unfolding result_at
rdap-live code state old st x rdap_check d n keeps live =
    ground (arith, n, keeps, live, lookup-insert x d st state.rdap, text_beq_iff x d)
rdap-live code state old st x dns_check d n keeps live = live
rdap-live code state old st x email_check d n keeps live = live
rdap-live code state old st x caa_check d n keeps live = live
rdap-live code state old st x dnssec_check d n keeps live = live
rdap-live code state old st x ns_health_check d n keeps live = live

pub dns-live :
    (code : ResultCode) (state : CheckState) (old st : DnsState) (x : Text) (check : CheckType)
    (d : Text)
    → lookup x state.dns ≡ some old
    → (not (reports code (some (old.status, old.condition)))
        || reports code (some (st.status, st.condition)))
      ≡ true
    → reports code (result_at state (record { check = check; domain = d })) ≡ true
    → reports code (
        result_at
          (record state { dns = insert x st state.dns })
          (record { check = check; domain = d }))
      ≡ true
unfolding result_at
dns-live code state old st x rdap_check d n keeps live = live
dns-live code state old st x dns_check d n keeps live =
    ground (arith, n, keeps, live, lookup-insert x d st state.dns, text_beq_iff x d)
dns-live code state old st x email_check d n keeps live = live
dns-live code state old st x caa_check d n keeps live = live
dns-live code state old st x dnssec_check d n keeps live = live
dns-live code state old st x ns_health_check d n keeps live = live

pub email-live :
    (code : ResultCode) (state : CheckState) (old st : EmailState) (x : Text) (check : CheckType)
    (d : Text)
    → lookup x state.email ≡ some old
    → (not (reports code (some (old.status, old.condition)))
        || reports code (some (st.status, st.condition)))
      ≡ true
    → reports code (result_at state (record { check = check; domain = d })) ≡ true
    → reports code (
        result_at
          (record state { email = insert x st state.email })
          (record { check = check; domain = d }))
      ≡ true
unfolding result_at
email-live code state old st x rdap_check d n keeps live = live
email-live code state old st x dns_check d n keeps live = live
email-live code state old st x email_check d n keeps live =
    ground (arith, n, keeps, live, lookup-insert x d st state.email, text_beq_iff x d)
email-live code state old st x caa_check d n keeps live = live
email-live code state old st x dnssec_check d n keeps live = live
email-live code state old st x ns_health_check d n keeps live = live

pub caa-live :
    (code : ResultCode) (state : CheckState) (old st : CaaResult) (x : Text) (check : CheckType)
    (d : Text)
    → lookup_optional x state.caa ≡ some old
    → (not (reports code (some (old.status, old.condition)))
        || reports code (some (st.status, st.condition)))
      ≡ true
    → reports code (result_at state (record { check = check; domain = d })) ≡ true
    → reports code (
        result_at
          (record state { caa = insert_optional x st state.caa })
          (record { check = check; domain = d }))
      ≡ true
unfolding result_at lookup_optional insert_optional
caa-live code state old st x rdap_check d n keeps live = live
caa-live code state old st x dns_check d n keeps live = live
caa-live code state old st x email_check d n keeps live = live
caa-live code state old st x caa_check d n keeps live = elim (Option-cases state.caa) [
  | inl e ↦ ground (arith, e, n)
  | inr (m, e) ↦ ground (arith, e, n, keeps, live, lookup-insert x d st m, text_beq_iff x d)
]
caa-live code state old st x dnssec_check d n keeps live = live
caa-live code state old st x ns_health_check d n keeps live = live

pub dnssec-live :
    (code : ResultCode) (state : CheckState) (old st : DnssecResult) (x : Text) (check : CheckType)
    (d : Text)
    → lookup_optional x state.dnssec ≡ some old
    → (not (reports code (some (old.status, old.condition)))
        || reports code (some (st.status, st.condition)))
      ≡ true
    → reports code (result_at state (record { check = check; domain = d })) ≡ true
    → reports code (
        result_at
          (record state { dnssec = insert_optional x st state.dnssec })
          (record { check = check; domain = d }))
      ≡ true
unfolding result_at lookup_optional insert_optional
dnssec-live code state old st x rdap_check d n keeps live = live
dnssec-live code state old st x dns_check d n keeps live = live
dnssec-live code state old st x email_check d n keeps live = live
dnssec-live code state old st x caa_check d n keeps live = live
dnssec-live code state old st x dnssec_check d n keeps live = elim (Option-cases state.dnssec) [
  | inl e ↦ ground (arith, e, n)
  | inr (m, e) ↦ ground (arith, e, n, keeps, live, lookup-insert x d st m, text_beq_iff x d)
]
dnssec-live code state old st x ns_health_check d n keeps live = live

pub ns_health-live :
    (code : ResultCode) (state : CheckState) (old st : NsHealthResult) (x : Text)
    (check : CheckType) (d : Text)
    → lookup_optional x state.ns_health ≡ some old
    → (not (reports code (some (old.status, old.condition)))
        || reports code (some (st.status, st.condition)))
      ≡ true
    → reports code (result_at state (record { check = check; domain = d })) ≡ true
    → reports code (
        result_at
          (record state { ns_health = insert_optional x st state.ns_health })
          (record { check = check; domain = d }))
      ≡ true
unfolding result_at lookup_optional insert_optional
ns_health-live code state old st x rdap_check d n keeps live = live
ns_health-live code state old st x dns_check d n keeps live = live
ns_health-live code state old st x email_check d n keeps live = live
ns_health-live code state old st x caa_check d n keeps live = live
ns_health-live code state old st x dnssec_check d n keeps live = live
ns_health-live code state old st x ns_health_check d n keeps live =
    elim (Option-cases state.ns_health) [
      | inl e ↦ ground (arith, e, n)
      | inr (m, e) ↦ ground (arith, e, n, keeps, live, lookup-insert x d st m, text_beq_iff x d)
    ]
