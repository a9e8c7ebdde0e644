-- ===== src/Lookup/Registration/Verdict.antt =====
-- What the verdict of EvaluateRDAP says of the evidence.
use domain_monitor.Base.{
  ℕ, ◌+◌, ◌*◌, ◌≡◌, refl, Bool, false, not, ◌&&◌, ◌||◌, List, [], ◌++◌, Option, none, some, leb,
  ◌==◌, if◌then◌else◌, is_empty, is_some, arith, Option-cases, inl, inr,
}
use domain_monitor.Text.{Text, codes, text_beq, Unicode, to_lower, has_substring, atoi_accepts}
use domain_monitor.Errors.{error_is, domain_not_found, rdap_not_found}
use domain_monitor.Types.Code
use domain_monitor.Types.Code.{ResultCode}
use domain_monitor.Types.Status.{CheckStatus, pending, ok, failed, warning, skipped, same_status}
use domain_monitor.Types.Condition.{Time, is_zero, ConditionTracker, new_tracker, promote}
use domain_monitor.Types.Config.{DomainConfig}
use domain_monitor.Types.Results.{RdapSnapshot}
use domain_monitor.Lookup.Epp.{is_transfer_locked, is_domain_suspended}
use domain_monitor.Lookup.Delegation.{evaluate_nameserver_delegation, delegation_agrees}
use domain_monitor.Lookup.Delegation.Agreement.{
  is_ok, has_failed, evaluate_nameserver_delegation-status, evaluate_nameserver_delegation_keeps,
}
use domain_monitor.Lookup.Registration.{
  day, classify_rdap_error, check_expiration, has_expired, suspension_code, check_suspension,
  check_transfer_lock, check_registrar, track_registration, evaluate_rdap,
}

-- The date is known and lies so many days ahead.
unfoldable pub expires_after : ℕ → Time → Option Time → Bool
expires_after days now none = false
expires_after days now (some t) = not (leb t (now + days * day))

module _ (u : Unicode) where
  -- The registrar is the expected one, if one is.
  unfoldable pub registrar_agrees : DomainConfig → RdapSnapshot → Bool
  registrar_agrees target snapshot =
      is_empty target.registrar
      || (if atoi_accepts target.registrar
          then text_beq snapshot.registrar_iana_id target.registrar
          else has_substring (to_lower u snapshot.registrar) (to_lower u target.registrar))

  -- What must hold beside the expiration for the registration not to have failed.
  unfoldable pub registration_agrees : DomainConfig → RdapSnapshot → Bool
  unfolding registrar_agrees
  registration_agrees target snapshot =
      (is_empty target.nameservers || delegation_agrees u target.nameservers snapshot.nameservers)
      && not (is_some (is_domain_suspended u snapshot.domain_status))
      && registrar_agrees target snapshot

  unfoldable pub lock_agrees : DomainConfig → RdapSnapshot → Bool
  lock_agrees target snapshot =
      not target.domain_transfer_locked || is_transfer_locked u snapshot.domain_status

  expiration-status :
      (now : Time) (allow : Bool) (text : Text) (expiry : Option Time)
      → (has_expired expiry now && allow) ≡ false
      → let ct = check_expiration now allow text expiry new_tracker in
        (is_ok ct ≡ (is_some expiry && (allow || expires_after 30 now expiry)))
        × (has_failed ct ≡ not (is_some expiry && (allow || expires_after 7 now expiry)))
  unfolding check_expiration has_expired expires_after promote
  expiration-status now allow text none h = (refl, refl)
  expiration-status now allow text (some t) h = (ground arith, ground arith)

  suspension-status :
      (statuses : List Text) (ct : ConditionTracker)
      → let suspended = is_some (is_domain_suspended u statuses) in
        (is_ok (check_suspension u statuses ct) ≡ (is_ok ct && not suspended))
        × (has_failed (check_suspension u statuses ct) ≡ (has_failed ct || suspended))
  unfolding check_suspension promote
  suspension-status statuses ct = (ground arith, ground arith)

  lock-status :
      (target : DomainConfig) (snapshot : RdapSnapshot) (ct : ConditionTracker)
      → let next = check_transfer_lock u target.domain_transfer_locked snapshot.domain_status ct in
        (is_ok next ≡ (is_ok ct && lock_agrees target snapshot)) × (has_failed next ≡ has_failed ct)
  unfolding check_transfer_lock promote lock_agrees
  lock-status target snapshot ct = (ground arith, ground arith)

  registrar-status :
      (target : DomainConfig) (snapshot : RdapSnapshot) (ct : ConditionTracker)
      → let next = check_registrar u target snapshot ct in
        (is_ok next ≡ (is_ok ct && registrar_agrees target snapshot))
        × (has_failed next ≡ (has_failed ct || not (registrar_agrees target snapshot)))
  unfolding check_registrar promote registrar_agrees
  registrar-status target snapshot ct = (ground arith, ground arith)

  track_registration-status :
      (expiry : Option Time) (now : Time) (target : DomainConfig) (snapshot : RdapSnapshot)
      → (has_expired expiry now && target.allow_expiry) ≡ false
      → let ct = track_registration u expiry now target snapshot in
        let in_time =
          λ (days : ℕ). is_some expiry && (target.allow_expiry || expires_after days now expiry) in
        (is_ok ct
          ≡ (in_time 30 && registration_agrees target snapshot && lock_agrees target snapshot))
        × (has_failed ct ≡ not (in_time 7 && registration_agrees target snapshot))
  unfolding track_registration registration_agrees
  track_registration-status expiry now target snapshot h =
      let c1 = check_expiration now target.allow_expiry snapshot.expiration expiry new_tracker in
      let c2 = evaluate_nameserver_delegation u target.nameservers snapshot.nameservers c1 in
      let c3 = check_suspension u snapshot.domain_status c2 in
      let c4 = check_transfer_lock u target.domain_transfer_locked snapshot.domain_status c3 in
      let e1 = expiration-status now target.allow_expiry snapshot.expiration expiry h in
      let e2 = evaluate_nameserver_delegation-status u target.nameservers snapshot.nameservers c1 in
      let e3 = suspension-status snapshot.domain_status c2 in
      let e4 = lock-status target snapshot c3 in
      let e5 = registrar-status target snapshot c4 in
      (ground (arith, e1, e2, e3, e4, e5), ground (arith, e1, e2, e3, e4, e5))

  -- With registration data at hand, and unless an expired domain may expire: the verdict is ok
  -- exactly when the expiry date is known and (where expiry is not allowed) lies more than 30 days
  -- ahead, the delegation agrees, no status suspends the domain, the registrar is the expected one
  -- and the demanded transfer lock is there; it is failed exactly when the date is unknown or (where
  -- expiry is not allowed) no more than 7 days ahead, or the delegation, a suspending status or the
  -- registrar is against it.
  pub evaluate_rdap_status :
      (parse_date : Text → Option Time) (now : Time) (target : DomainConfig)
      (snapshot : RdapSnapshot)
      → is_empty target.domain ≡ false
      → snapshot.err ≡ none
      → (has_expired (parse_date snapshot.expiration) now && target.allow_expiry) ≡ false
      → let status = (evaluate_rdap u parse_date now target snapshot).0 in
        let expiry = parse_date snapshot.expiration in
        let in_time =
          λ (days : ℕ). is_some expiry && (target.allow_expiry || expires_after days now expiry) in
        (same_status status ok
          ≡ (in_time 30 && registration_agrees target snapshot && lock_agrees target snapshot))
        × (same_status status failed ≡ not (in_time 7 && registration_agrees target snapshot))
  unfolding evaluate_rdap
  evaluate_rdap_status parse_date now target snapshot named fetched h =
      let found =
        track_registration-status (parse_date snapshot.expiration) now target snapshot h in
      (ground (arith, found), ground (arith, found))

  -- A tracker of this check: it never skips, and it has a condition exactly when it is not ok.
  record Sound (ct : ConditionTracker) : Type 0 where
    runs : (same_status ct.status skipped || same_status ct.status pending) ≡ false
    told : is_ok ct ≡ is_zero ct.cond

  promote-Sound :
      (ct : ConditionTracker) (status : CheckStatus) (code : ResultCode) (target : Text)
      → (code == Code.no_code) ≡ false
      → Sound ct
      → Sound (promote ct status code target)
  unfolding promote is_zero
  promote-Sound ct status code target h v = ground arith

  suspension_code_told : (s : Text) → (suspension_code u s == Code.no_code) ≡ false
  unfolding suspension_code
  suspension_code_told s = ground arith

  check_expiration-Sound :
      (now : Time) (allow : Bool) (text : Text) (expiry : Option Time)
      → Sound (check_expiration now allow text expiry new_tracker)
  unfolding check_expiration promote is_zero
  check_expiration-Sound now allow text none = ground arith
  check_expiration-Sound now allow text (some t) = ground arith

  check_suspension-Sound :
      (statuses : List Text) (ct : ConditionTracker)
      → Sound ct
      → Sound (check_suspension u statuses ct)
  unfolding check_suspension
  check_suspension-Sound statuses ct v = elim (Option-cases (is_domain_suspended u statuses)) [
    | inl e ↦ rw (e, check_suspension) v
    | inr (s, e) ↦
        rw (e, check_suspension) (promote-Sound ct failed _ [] (suspension_code_told s) v)
  ]

  check_transfer_lock-Sound :
      (locked : Bool) (statuses : List Text) (ct : ConditionTracker)
      → Sound ct
      → Sound (check_transfer_lock u locked statuses ct)
  unfolding check_transfer_lock
  check_transfer_lock-Sound locked statuses ct v =
      ground (arith, promote-Sound ct warning Code.rdap_transfer_unlocked [] refl v)

  check_registrar-Sound :
      (target : DomainConfig) (snapshot : RdapSnapshot) (ct : ConditionTracker)
      → Sound ct
      → Sound (check_registrar u target snapshot ct)
  unfolding check_registrar
  check_registrar-Sound target snapshot ct v = ground (
    arith,
    promote-Sound ct failed Code.rdap_registrar_mismatch (codes "IANA " ++ target.registrar) refl v,
    promote-Sound ct failed Code.rdap_registrar_mismatch target.registrar refl v,
  )

  track_registration-Sound :
      (expiry : Option Time) (now : Time) (target : DomainConfig) (snapshot : RdapSnapshot)
      → Sound (track_registration u expiry now target snapshot)
  unfolding track_registration
  track_registration-Sound expiry now target snapshot = check_registrar-Sound target snapshot _ (
      check_transfer_lock-Sound target.domain_transfer_locked snapshot.domain_status _ (
        check_suspension-Sound snapshot.domain_status _ (
          evaluate_nameserver_delegation_keeps u Sound (λ ct code t. promote-Sound ct failed code t)
            target.nameservers snapshot.nameservers _
            (check_expiration-Sound now target.allow_expiry snapshot.expiration expiry))))

  -- The evidence that a domain which may expire has expired: the registry does not know it, or its
  -- expiry date has passed.
  unfoldable pub confirms_expiry : (Text → Option Time) → Time → RdapSnapshot → Bool
  confirms_expiry parse_date now snapshot = elim snapshot.err [
    | some e ↦ error_is (some e) domain_not_found || error_is (some e) rdap_not_found
    | none ↦ has_expired (parse_date snapshot.expiration) now
  ]

  -- On every input: a domain's check is skipped exactly when expiry is allowed and the evidence
  -- confirms it, so that no other failure passes for an expired domain.
  pub evaluate_rdap_skipped_iff :
      (parse_date : Text → Option Time) (now : Time) (target : DomainConfig)
      (snapshot : RdapSnapshot)
      → same_status (evaluate_rdap u parse_date now target snapshot).0 skipped ≡ (
          not (is_empty target.domain)
          && target.allow_expiry
          && confirms_expiry parse_date now snapshot)
  unfolding evaluate_rdap confirms_expiry classify_rdap_error
  evaluate_rdap_skipped_iff parse_date now target snapshot =
      ground (arith, track_registration-Sound (parse_date snapshot.expiration) now target snapshot)

  -- On every input: the condition is absent exactly for a pending or a skipped check; every other
  -- verdict carries a result code.
  evaluate_rdap_condition_iff :
      (parse_date : Text → Option Time) (now : Time) (target : DomainConfig)
      (snapshot : RdapSnapshot)
      → let (status, cond) = evaluate_rdap u parse_date now target snapshot in
        is_zero cond ≡ (same_status status skipped || same_status status pending)
  unfolding evaluate_rdap classify_rdap_error is_zero
  evaluate_rdap_condition_iff parse_date now target snapshot =
      ground (arith, track_registration-Sound (parse_date snapshot.expiration) now target snapshot)
