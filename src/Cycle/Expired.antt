-- ===== src/Cycle/Expired.antt =====
-- Domains that may expire and have expired, and the checks that stop for them:
-- src/internal/monitor/runtime.go, from newCycleState to nextExpiredDomains.
pub mod Owner
pub mod Carry
pub mod Dropped
use domain_monitor.Base.{
  ℕ, zero, suc, Bool, true, false, not, ◌&&◌, ◌||◌, List, [], ◌∷◌, ◌++◌, Option, none, some, ltb,
  ◌==◌, if◌then◌else◌, is_empty, is_some, any, Map, KeySet, lookup, insert, delete, member, add,
  get_elem?, get_or_else,
}
use domain_monitor.Text.{Text, codes, text_beq, text_eq, Unicode, has_prefix, has_suffix, byte_len}
use domain_monitor.Utils.{normalize_domain}
use domain_monitor.Types.Code
use domain_monitor.Types.Config.{internal_caa_task_prefix, DomainConfig, DnsTask, AppConfig}
use domain_monitor.Types.Status.{pending}
use domain_monitor.Types.Results.{
  RdapState, zero_rdap_state, DnsState, EmailState, DnssecResult, NsHealthResult, CaaResult,
  CheckState, CycleMetadata,
}

-- Which checks a cycle runs, as indices into the configuration.
pub record ActiveChecks : Type 0 where
  pub domains : List ℕ
  pub rdap_domains : List ℕ
  pub dns_records : List ℕ

-- A domain that the state has no entry for reads as the zero RDAPState.
unfoldable pub rdap_of : CheckState → Text → RdapState
rdap_of state domain = get_or_else (lookup domain state.rdap) zero_rdap_state

-- A delete on a nil map does nothing.
unfoldable pub delete_optional {ℓ} : {V : Type ℓ} → Text → Option (Map Text V) → Option (Map Text V)
delete_optional k none = none
delete_optional k (some m) = some (delete k m)

-- The evidence of this cycle that the domain has expired, as it may.
unfoldable pub is_confirmed_expired : CheckState → DomainConfig → Bool
unfolding rdap_of
is_confirmed_expired state d = d.allow_expiry && (rdap_of state d.domain).expiry_confirmed

-- One round of the loop of nextExpiredDomains.
unfoldable pub judge_expired : CheckState → DomainConfig → KeySet Text → KeySet Text
unfolding rdap_of
judge_expired state d expired =
    let rdap = rdap_of state d.domain in
    if not d.allow_expiry
    then delete d.domain expired
    else if rdap.expiry_confirmed
    then add d.domain expired
    else if member d.domain expired && rdap.condition.code == Code.rdap_http_error
    then expired
    else delete d.domain expired

unfoldable pub judge_all_expired : CheckState → List DomainConfig → KeySet Text → KeySet Text
unfolding judge_expired
judge_all_expired state [] expired = expired
judge_all_expired state (d ∷ domains) expired =
    judge_all_expired state domains (judge_expired state d expired)

unfoldable pub next_expired_domains : KeySet Text → AppConfig → CheckState → KeySet Text
unfolding judge_all_expired
next_expired_domains current cfg state = judge_all_expired state cfg.domains current

module _ (u : Unicode) where
  -- Whether the host is the name or lies below it.
  unfoldable pub covers : Text → Text → Bool
  unfolding has_suffix
  covers host name = text_beq host name || has_suffix host (b'.' ∷ name)

  unfoldable pub longest_owner : Text → List DomainConfig → Text → Text
  unfolding covers byte_len
  longest_owner host [] owner = owner
  longest_owner host (d ∷ domains) owner =
      let name = normalize_domain u d.domain in
      longest_owner host domains
        (if covers host name && ltb (byte_len owner) (byte_len name) then name else owner)

  unfoldable pub configured_domain_owner : Text → List DomainConfig → Text
  unfolding longest_owner
  configured_domain_owner hostname domains = longest_owner (normalize_domain u hostname) domains []

  -- The first loop: the set `expired`, and the entries that go with each domain in it.
  unfoldable pub drop_expired :
      List DomainConfig → KeySet Text → CheckState → KeySet Text × CheckState
  unfolding is_confirmed_expired
  drop_expired [] expired state = (expired, state)
  drop_expired (d ∷ domains) expired state =
      let gone = is_confirmed_expired state d in
      drop_expired domains (if gone then add (normalize_domain u d.domain) expired else expired) (
        if gone
        then record state {
          email = delete d.domain state.email;
          dnssec = delete_optional d.domain state.dnssec;
          ns_health = delete_optional d.domain state.ns_health;
          caa = delete_optional d.domain state.caa;
        }
        else state)

  unfoldable pub drop_expired_records :
      List DomainConfig → KeySet Text → List DnsTask → Map Text DnsState → Map Text DnsState
  unfolding configured_domain_owner
  drop_expired_records domains expired [] dns = dns
  drop_expired_records domains expired (r ∷ records) dns =
      drop_expired_records domains expired records (
        if member (configured_domain_owner r.hostname domains) expired
        then delete r.name dns
        else dns)

  unfoldable pub suppress_expired_domain_checks : AppConfig → CheckState → CheckState
  unfolding drop_expired drop_expired_records
  suppress_expired_domain_checks cfg state =
      let (expired, dropped) = drop_expired cfg.domains [] state in
      if is_empty expired then dropped else record dropped {
        dns = drop_expired_records cfg.domains expired cfg.dns_records dropped.dns;
      }

  -- The loops of activeChecksForCycleWithExpired. An index past the configuration would panic; the
  -- indices come from the configuration itself.
  unfoldable pub keep_unexpired_domains : AppConfig → KeySet Text → List ℕ → List ℕ
  keep_unexpired_domains cfg expired [] = []
  keep_unexpired_domains cfg expired (i ∷ indices) =
      let rest = keep_unexpired_domains cfg expired indices in
      elim (get_elem? cfg.domains i) [
        | none ↦ rest
        | some d ↦ if member d.domain expired then rest else i ∷ rest
      ]

  unfoldable pub keep_unexpired_records : AppConfig → KeySet Text → List ℕ → List ℕ
  unfolding configured_domain_owner
  keep_unexpired_records cfg expired [] = []
  keep_unexpired_records cfg expired (i ∷ indices) =
      let rest = keep_unexpired_records cfg expired indices in
      elim (get_elem? cfg.dns_records i) [
        | none ↦ rest
        | some r ↦
            if member (configured_domain_owner r.hostname cfg.domains) expired
            then rest
            else i ∷ rest
      ]

  unfoldable pub active_checks_for_cycle_with_expired :
      ActiveChecks → AppConfig → KeySet Text → ActiveChecks
  unfolding keep_unexpired_domains keep_unexpired_records
  active_checks_for_cycle_with_expired active cfg expired =
      if is_empty expired then active else record active {
        domains = keep_unexpired_domains cfg expired active.domains;
        dns_records = keep_unexpired_records cfg expired active.dns_records;
      }

-- The maps of a new cycle: how many of the active checks are of an optional kind.
unfoldable pub count_active {ℓ} : {A : Type ℓ} → (A → Bool) → List A → List ℕ → ℕ
count_active p entries [] = 0
count_active p entries (i ∷ indices) = elim (get_elem? entries i) [
  | none ↦ count_active p entries indices
  | some a ↦ if p a then suc (count_active p entries indices) else count_active p entries indices
]

unfoldable pub pending_rdap : List DomainConfig → Map Text RdapState → Map Text RdapState
pending_rdap [] rdap = rdap
pending_rdap (d ∷ domains) rdap = pending_rdap domains (
    insert d.domain (record zero_rdap_state { status = pending; allow_expiry = d.allow_expiry })
      rdap)

unfoldable pub new_cycle_state : AppConfig → ActiveChecks → CheckState
unfolding count_active has_prefix internal_caa_task_prefix pending_rdap
new_cycle_state cfg active =
    let dnssec_count = count_active (λ (d : DomainConfig). d.dnssec) cfg.domains active.domains in
    let ns_health_count =
      count_active (λ (d : DomainConfig). not (is_empty d.nameservers)) cfg.domains
        active.domains in
    let caa_count =
      count_active (λ (r : DnsTask). has_prefix r.name internal_caa_task_prefix) cfg.dns_records
        active.dns_records in
    record {
      rdap = pending_rdap cfg.domains [];
      dns = [];
      email = [];
      dnssec = if ltb 0 dnssec_count then some [] else none;
      ns_health = if ltb 0 ns_health_count then some [] else none;
      caa = if ltb 0 caa_count then some [] else none;
      last_updated = [];
      next_refresh = [];
      cycle = record {
        id = 0;
        phase = [];
        outcome = [];
        started_at = [];
        finished_at = [];
        last_success_at = [];
        duration_ms = 0;
        overrun = false;
      };
    }
