-- ===== src/Examples/Lookup.antt =====
-- Examples for the registration and delegation checks.
use domain_monitor.Base.{
  ◌*◌, ◌≡◌, refl, true, false, not, ◌&&◌, ◌||◌, [], ◌∷◌, Option, none, some, is_empty,
}
use domain_monitor.Text.{Text, codes, ascii, text_beq}
use domain_monitor.Types.Float.{pos}
use domain_monitor.Types.Code
use domain_monitor.Types.Status.{ok, failed, skipped, same_status}
use domain_monitor.Types.Condition.{Time, condition, is_zero}
use domain_monitor.Types.Config.{DomainConfig}
use domain_monitor.Types.Results.{RdapSnapshot, NsDelegationSnapshot}
use domain_monitor.Lookup.Delegation.{evaluate_ns_delegation, delegation_agrees}
use domain_monitor.Lookup.Delegation.Agreement.{ns_delegation_ok_iff}
use domain_monitor.Lookup.Registration.{day, has_expired, evaluate_rdap}
use domain_monitor.Lookup.Registration.Verdict.{
  expires_after, registration_agrees, lock_agrees, confirms_expiry, evaluate_rdap_status,
  evaluate_rdap_skipped_iff,
}
use domain_monitor.Cycle.Registration.{evaluate_rdap_check, evaluate_rdap_check-confirms}

-- A domain with one public nameserver and one hidden one, whose lock is demanded.
abbrev target : DomainConfig
target = record {
  domain = codes "example.com";
  name = codes "example";
  root_zone = codes "com";
  registrar = codes "292";
  nameservers =
      record { hostname = codes "ns1.example.com"; hidden = false }
      ∷ record { hostname = codes "ns0.example.com"; hidden = true }
      ∷ [];
  email = none;
  caa = none;
  renewal_price = pos 0;
  allow_expiry = false;
  domain_transfer_locked = true;
  dnssec = false;
  suppress_alerts = false;
}

abbrev snapshot : RdapSnapshot
snapshot = record {
  registrar = codes "MarkMonitor Inc.";
  registrar_iana_id = codes "292";
  expiration = codes "2030-01-01";
  nameservers = codes "NS1.example.com." ∷ [];
  domain_status = codes "client transfer prohibited" ∷ [];
  dnssec = false;
  source = [];
  protocol_used = [];
  query_duration_ms = 0;
  registry_tier = none;
  registrar_tier = none;
  discrepancies = [];
  err = none;
}

-- A reader that takes every date for the day 40.
abbrev parse_date : Text → Option Time
parse_date s = some (40 * day)

evaluate_rdap_runs :
    evaluate_rdap ascii parse_date 0 target snapshot ≡ (ok, condition Code.rdap_success [])
unfolding evaluate_rdap text_beq domain_monitor.Lookup.Registration.check_registrar
    domain_monitor.Text.atoi_accepts domain_monitor.Lookup.Registration.check_transfer_lock
    domain_monitor.Lookup.Epp.is_transfer_locked domain_monitor.Base.keep
    domain_monitor.Lookup.Registration.check_suspension
    domain_monitor.Lookup.Epp.is_domain_suspended
    domain_monitor.Lookup.Delegation.evaluate_nameserver_delegation domain_monitor.Base.lookup
    domain_monitor.Utils.normalize_domain domain_monitor.Base.insert
    domain_monitor.Lookup.Registration.check_expiration
evaluate_rdap_runs = refl

evaluate_rdap_status_example :
    (same_status (evaluate_rdap ascii parse_date 0 target snapshot).0 ok ≡ (
      (false || expires_after 30 0 (some (40 * day)))
      && registration_agrees ascii target snapshot
      && lock_agrees ascii target snapshot))
    × (same_status (evaluate_rdap ascii parse_date 0 target snapshot).0 failed
        ≡ not (
            (false || expires_after 7 0 (some (40 * day)))
            && registration_agrees ascii target snapshot))
unfolding has_expired
evaluate_rdap_status_example =
    evaluate_rdap_status ascii parse_date 0 target snapshot refl refl refl

evaluate_rdap_skipped_iff_example :
    same_status (evaluate_rdap ascii parse_date (41 * day) target snapshot).0 skipped ≡ (
      not (is_empty target.domain)
      && target.allow_expiry
      && confirms_expiry ascii parse_date (41 * day) snapshot)
evaluate_rdap_skipped_iff_example =
    evaluate_rdap_skipped_iff ascii parse_date (41 * day) target snapshot

evaluate_rdap_check-confirms_example :
    (evaluate_rdap_check ascii parse_date
      (41 * day)
      (record target { allow_expiry = true })
      snapshot).expiry_confirmed
    ≡ confirms_expiry ascii parse_date (41 * day) snapshot
evaluate_rdap_check-confirms_example =
    evaluate_rdap_check-confirms ascii parse_date (41 * day) (record target { allow_expiry = true })
      snapshot

-- The hidden nameserver is public.
abbrev delegation : NsDelegationSnapshot
delegation = record {
  nameservers = codes "ns1.example.com" ∷ codes "ns0.example.com" ∷ [];
  err = none;
}

ns_delegation_runs :
    evaluate_ns_delegation ascii target delegation
    ≡ (failed, condition Code.ns_hidden_exposed (codes "ns0.example.com"))
unfolding evaluate_ns_delegation text_beq domain_monitor.Base.lookup
    domain_monitor.Utils.normalize_domain domain_monitor.Base.insert
    domain_monitor.Types.Condition.promote
ns_delegation_runs = refl

ns_delegation_ok_iff_example :
    (same_status (evaluate_ns_delegation ascii target delegation).0 ok
      ≡ delegation_agrees ascii target.nameservers delegation.nameservers)
    × (same_status (evaluate_ns_delegation ascii target delegation).0 failed
        ≡ not (delegation_agrees ascii target.nameservers delegation.nameservers))
ns_delegation_ok_iff_example = ns_delegation_ok_iff ascii target delegation refl refl
