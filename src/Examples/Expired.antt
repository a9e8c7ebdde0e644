-- ===== src/Examples/Expired.antt =====
-- Examples for the domains that may expire.
use domain_monitor.Base.{
  ℕ, ◌≡◌, ◌⊎◌, refl, Bool, true, false, not, ◌||◌, List, [], ◌∷◌, Option, none, some, leb,
  if◌then◌else◌, All, KeySet, member, lookup, distinct,
}
use domain_monitor.Text.{Text, codes, ascii, text_eq, text_beq, byte_len}
use domain_monitor.Utils.{normalize_domain}
use domain_monitor.Types.Float.{pos}
use domain_monitor.Types.Code
use domain_monitor.Types.Status.{skipped, failed}
use domain_monitor.Types.Condition.{condition}
use domain_monitor.Types.Config.{DomainConfig, DnsTask, AppConfig}
use domain_monitor.Types.Results.{zero_rdap_state, EmailState, DnsState, CheckState}
use domain_monitor.Cycle.Expired.{
  covers, configured_domain_owner, next_expired_domains, suppress_expired_domain_checks,
}
use domain_monitor.Cycle.Expired.Owner.{is_owner, configured_domain_owner_longest}
use domain_monitor.Cycle.Expired.Carry.{stays_expired, next_expired_domains-member}
use domain_monitor.Cycle.Expired.Dropped.{
  has_gone, record_has_gone, lookup_optional, suppress_expired_domain_checks-lookup,
}

abbrev pub domain_named : Text → Bool → DomainConfig
domain_named domain allow = record {
  domain = domain;
  name = domain;
  root_zone = [];
  registrar = [];
  nameservers = [];
  email = none;
  caa = none;
  renewal_price = pos 0;
  allow_expiry = allow;
  domain_transfer_locked = false;
  dnssec = false;
  suppress_alerts = false;
}

abbrev pub task_named : Text → Text → DnsTask
task_named name hostname = record {
  domain_caa = false;
  hostname = hostname;
  name = name;
  record_type = codes "A";
  expected = none;
  match_type = [];
  custom_resolver = [];
}

-- One domain that stays, one below it that may expire, and a record for each.
abbrev pub cfg : AppConfig
cfg = record {
  port = [];
  loop_interval_days = pos 0;
  notifications = record { ntfy = none };
  resolvers = [];
  doh_url = [];
  email_providers_dir = [];
  domains = domain_named (codes "a.org") false ∷ domain_named (codes "b.a.org") true ∷ [];
  dns_records =
      task_named (codes "one") (codes "www.a.org")
      ∷ task_named (codes "two") (codes "www.b.a.org")
      ∷ [];
}

abbrev some_email : EmailState
some_email = record {
  provider = [];
  status = failed;
  condition = condition Code.no_code [];
  unavailable = false;
  spf = false;
  dmarc = false;
  dkim_expected = false;
  dkim_valid = [];
  mx = [];
  error = [];
  findings = [];
}

abbrev pub some_dns : DnsState
some_dns = record {
  hostname = [];
  name = [];
  record_type = [];
  expected = none;
  status = failed;
  condition = condition Code.dns_lookup_failed (codes "x");
  unavailable = false;
  found = [];
  error = [];
  findings = [];
}

-- What a cycle has of these, with the expiry of the second confirmed.
abbrev pub state : CheckState
state = record {
  rdap =
      (codes "a.org", zero_rdap_state)
      ∷ (codes "b.a.org", record zero_rdap_state { status = skipped; expiry_confirmed = true })
      ∷ [];
  dns = (codes "one", some_dns) ∷ (codes "two", some_dns) ∷ [];
  email = (codes "a.org", some_email) ∷ (codes "b.a.org", some_email) ∷ [];
  dnssec = none;
  ns_health = none;
  caa = none;
  last_updated = [];
  next_refresh = [];
  cycle = record {
    id = 1;
    phase = [];
    outcome = [];
    started_at = [];
    finished_at = [];
    last_success_at = [];
    duration_ms = 0;
    overrun = false;
  };
}

configured_domain_owner_runs :
    configured_domain_owner ascii (codes "WWW.b.a.org.") cfg.domains ≡ codes "b.a.org"
unfolding configured_domain_owner text_beq normalize_domain
configured_domain_owner_runs = refl

configured_domain_owner_longest_example :
    let host = normalize_domain ascii (codes "WWW.b.a.org.") in
    let owner = configured_domain_owner ascii (codes "WWW.b.a.org.") cfg.domains in
    All
      (λ d.
        (not (covers ascii host (normalize_domain ascii d.domain))
          || leb (byte_len (normalize_domain ascii d.domain)) (byte_len owner))
        ≡ true)
      cfg.domains
    × ((owner ≡ []) ⊎ (is_owner ascii host cfg.domains owner ≡ true))
configured_domain_owner_longest_example =
    configured_domain_owner_longest ascii (codes "WWW.b.a.org.") cfg.domains

suppress_runs :
    (lookup (codes "two") (suppress_expired_domain_checks ascii cfg state).dns ≡ none)
    × (lookup (codes "one") (suppress_expired_domain_checks ascii cfg state).dns ≡ some some_dns)
unfolding suppress_expired_domain_checks lookup text_beq domain_monitor.Base.insert normalize_domain
    domain_monitor.Base.delete
suppress_runs = (refl, refl)

suppress_expired_domain_checks-lookup_example :
    let after = suppress_expired_domain_checks ascii cfg state in
    let gone = has_gone state cfg.domains (codes "b.a.org") in
    (lookup (codes "b.a.org") after.email
      ≡ (if gone then none else lookup (codes "b.a.org") state.email))
    × (lookup_optional (codes "b.a.org") after.dnssec
        ≡ (if gone then none else lookup_optional (codes "b.a.org") state.dnssec))
    × (lookup_optional (codes "b.a.org") after.ns_health
        ≡ (if gone then none else lookup_optional (codes "b.a.org") state.ns_health))
    × (lookup_optional (codes "b.a.org") after.caa
        ≡ (if gone then none else lookup_optional (codes "b.a.org") state.caa))
    × (lookup (codes "b.a.org") after.dns ≡ (
        if record_has_gone ascii state cfg (codes "b.a.org")
        then none
        else lookup (codes "b.a.org") state.dns))
    × (after.rdap ≡ state.rdap)
suppress_expired_domain_checks-lookup_example =
    suppress_expired_domain_checks-lookup ascii cfg state (codes "b.a.org")

next_expired_domains-member_example :
    member (codes "b.a.org") (next_expired_domains [] cfg state)
    ≡ stays_expired state [] (domain_named (codes "b.a.org") true)
unfolding distinct text_beq
next_expired_domains-member_example =
    next_expired_domains-member [] cfg state 1 (domain_named (codes "b.a.org") true) refl refl
