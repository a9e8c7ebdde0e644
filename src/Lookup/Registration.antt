-- ===== src/Lookup/Registration.antt =====
-- The verdict on registration evidence: EvaluateRDAP, classifyRDAPError and isWHOISRateLimited in
-- src/internal/monitor/lookup.go. The current time is an argument.
pub mod Verdict
use domain_monitor.Base.{
  ℕ, ◌+◌, ◌*◌, Bool, true, false, not, ◌&&◌, ◌||◌, List, [], ◌∷◌, ◌++◌, Option, none, some, ltb,
  leb, ◌==◌, if◌then◌else◌, is_empty, any,
}
use domain_monitor.Text.{Text, codes, text_beq, Unicode, to_lower, has_substring, atoi_accepts}
use domain_monitor.Errors.{Error, error_is, domain_not_found, rdap_not_found, whois_rate_limited}
use domain_monitor.Types.Code
use domain_monitor.Types.Code.{ResultCode}
use domain_monitor.Types.Epp
use domain_monitor.Types.Status.{CheckStatus, pending, ok, failed, warning, skipped, same_status}
use domain_monitor.Types.Condition.{
  Time, StateCondition, condition, zero_condition, is_zero, ConditionTracker, new_tracker, promote,
}
use domain_monitor.Types.Config.{DomainConfig}
use domain_monitor.Types.Results.{RdapSnapshot}
use domain_monitor.Lookup.Epp.{classify_epp_status, is_transfer_locked, is_domain_suspended}
use domain_monitor.Lookup.Delegation.{evaluate_nameserver_delegation}

unfoldable pub whois_rate_limit_indicators : List Text
whois_rate_limit_indicators =
    codes "limit exceeded"
    ∷ codes "query limit exceeded"
    ∷ codes "too many requests"
    ∷ codes "quota exceeded"
    ∷ codes "access denied"
    ∷ codes "connection reset by peer"
    ∷ codes "exceeded your access quota"
    ∷ codes "lookup quota exceeded"
    ∷ codes "rate limit"
    ∷ codes "rate-limit"
    ∷ []

-- A day in nanoseconds, and the thresholds in days.
abbrev pub day : ℕ
day = 86400000000000

abbrev pub default_rdap_expiry_warning_days : ℕ
default_rdap_expiry_warning_days = 30

abbrev pub rdap_critical_expiry_days : ℕ
rdap_critical_expiry_days = 7

-- 1. The expiration, unless it skips the check.
unfoldable pub check_expiration :
    Time → Bool → Text → Option Time → ConditionTracker → ConditionTracker
check_expiration now allow_expiry text none ct = promote ct failed Code.rdap_expiry_unavailable text
check_expiration now allow_expiry text (some t) ct =
    if ltb t now
    then promote ct failed Code.rdap_expired []
    else if leb t (now + default_rdap_expiry_warning_days * day) && not allow_expiry
    then promote ct (if leb t (now + rdap_critical_expiry_days * day) then failed else warning)
        Code.rdap_expiring_soon []
    else ct

unfoldable pub has_expired : Option Time → Time → Bool
has_expired none now = false
has_expired (some t) now = ltb t now

module _ (u : Unicode) where
  unfoldable pub is_whois_rate_limited : Text → Option Error → Bool
  unfolding to_lower whois_rate_limit_indicators
  is_whois_rate_limited text err =
      let lower = to_lower u text in
      let by_text = any (λ ind. has_substring lower ind) whois_rate_limit_indicators in
      elim err [
        | none ↦ by_text
        | some e ↦
            let message = to_lower u e.message in
            has_substring message (codes "limit")
            || has_substring message (codes "quota")
            || has_substring message (codes "too many")
            || by_text
      ]

  unfoldable pub classify_rdap_error : Error → Bool → CheckStatus × StateCondition
  classify_rdap_error err allow_expiry =
      let text = err.message in
      if error_is (some err) domain_not_found || error_is (some err) rdap_not_found
      then if allow_expiry
        then (skipped, zero_condition)
        else (failed, condition Code.domain_not_found [])
      else if has_substring text (codes "connection refused")
          || has_substring text (codes "i/o timeout")
          || has_substring text (codes "no such host")
          || has_substring text (codes "temporary failure")
          || is_whois_rate_limited text (some err)
          || error_is (some err) whois_rate_limited
      then (warning, condition Code.rdap_http_error [])
      else (failed, condition Code.rdap_http_error [])

  -- 3. The code for the status that suspends the domain.
  unfoldable pub suspension_code : Text → ResultCode
  suspension_code status =
      let epp = classify_epp_status u status in
      if epp == Epp.server_hold
      then Code.epp_server_hold
      else if epp == Epp.client_hold
      then Code.epp_client_hold
      else if epp == Epp.pending_delete
      then Code.epp_pending_delete
      else if epp == Epp.redemption_period
      then Code.epp_redemption_period
      else if epp == Epp.inactive
      then Code.epp_inactive
      else Code.rdap_suspended

  unfoldable pub check_suspension : List Text → ConditionTracker → ConditionTracker
  unfolding suspension_code
  check_suspension statuses ct = elim (is_domain_suspended u statuses) [
    | none ↦ ct
    | some status ↦ promote ct failed (suspension_code status) []
  ]

  -- 4. The transfer lock.
  unfoldable pub check_transfer_lock : Bool → List Text → ConditionTracker → ConditionTracker
  check_transfer_lock locked statuses ct =
      if locked && not (is_transfer_locked u statuses)
      then promote ct warning Code.rdap_transfer_unlocked []
      else ct

  -- 5. The registrar, by its IANA number or by its name.
  unfoldable pub check_registrar : DomainConfig → RdapSnapshot → ConditionTracker → ConditionTracker
  check_registrar target snapshot ct =
      if not (is_empty target.registrar)
      then if atoi_accepts target.registrar
        then if not (text_beq snapshot.registrar_iana_id target.registrar)
          then promote ct failed Code.rdap_registrar_mismatch (codes "IANA " ++ target.registrar)
          else ct
        else if not (has_substring (to_lower u snapshot.registrar) (to_lower u target.registrar))
        then promote ct failed Code.rdap_registrar_mismatch target.registrar
        else ct
      else ct

  -- The checks in the order of the code; `expiry` is what parseFlexibleDate makes of the date.
  unfoldable pub track_registration :
      Option Time → Time → DomainConfig → RdapSnapshot → ConditionTracker
  track_registration expiry now target snapshot = check_registrar target snapshot (
      check_transfer_lock target.domain_transfer_locked snapshot.domain_status (
        check_suspension snapshot.domain_status (
          evaluate_nameserver_delegation u target.nameservers snapshot.nameservers
            (check_expiration now target.allow_expiry snapshot.expiration expiry new_tracker))))

  unfoldable pub evaluate_rdap :
      (Text → Option Time) → Time → DomainConfig → RdapSnapshot → CheckStatus × StateCondition
  unfolding classify_rdap_error track_registration has_expired is_zero
  evaluate_rdap parse_date now target snapshot =
      let expiry = parse_date snapshot.expiration in
      let ct = track_registration expiry now target snapshot in
      if is_empty target.domain then (pending, zero_condition) else elim snapshot.err [
        | some e ↦ classify_rdap_error e target.allow_expiry
        | none ↦
            if has_expired expiry now && target.allow_expiry
            then (skipped, zero_condition)
            else (ct.status, if is_zero ct.cond then condition Code.rdap_success [] else ct.cond)
      ]
