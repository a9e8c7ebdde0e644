-- ===== src/Types/Results.antt =====
-- The results of the checks and the evidence behind them: src/internal/monitor/types.go, sections
-- 3 and 7.
use domain_monitor.Base.{ℕ, Bool, false, List, [], Option, none, Map}
use domain_monitor.Text.{Text}
use domain_monitor.Errors.{MaybeError}
use domain_monitor.Types.Float.{Float64, pos}
use domain_monitor.Types.Status.{CheckStatus, unknown}
use domain_monitor.Types.Condition.{StateCondition, zero_condition, Finding}

pub record CaaResult : Type 0 where
  pub status : CheckStatus
  pub condition : StateCondition
  pub valid : Bool
  pub unavailable : Bool
  pub issue : List Text
  pub issue_wild : List Text
  pub issue_mail : List Text
  pub unknown_cas : List Text
  pub error : Text
  pub findings : List Finding

pub record DomainTierData : Type 0 where
  pub source : Text
  pub server : Text
  pub registrar : Text
  pub iana_id : Text
  pub expiration : Text
  pub created : Text
  pub updated : Text
  pub nameservers : List Text
  pub domain_status : List Text
  pub dnssec : Bool

pub record RdapState : Type 0 where
  pub status : CheckStatus
  pub condition : StateCondition
  pub unavailable : Bool
  pub registrar : Text
  pub registrar_iana_id : Text
  pub registrar_mismatch : Bool
  pub expected_registrar : Text
  pub expiration : Text
  pub nameservers : List Text
  pub domain_status : List Text
  pub dnssec : Bool
  pub renewal_price : Float64
  pub allow_expiry : Bool
  pub expiry_confirmed : Bool
  pub error : Text
  pub is_delegated : Bool
  pub source : Text
  pub protocol_used : Text
  pub query_duration_ms : ℕ
  pub registry_tier : Option DomainTierData
  pub registrar_tier : Option DomainTierData
  pub discrepancies : List Text
  pub findings : List Finding

-- `RDAPState{}`
abbrev pub zero_rdap_state : RdapState
zero_rdap_state = record {
  status = unknown;
  condition = zero_condition;
  unavailable = false;
  registrar = [];
  registrar_iana_id = [];
  registrar_mismatch = false;
  expected_registrar = [];
  expiration = [];
  nameservers = [];
  domain_status = [];
  dnssec = false;
  renewal_price = pos 0;
  allow_expiry = false;
  expiry_confirmed = false;
  error = [];
  is_delegated = false;
  source = [];
  protocol_used = [];
  query_duration_ms = 0;
  registry_tier = none;
  registrar_tier = none;
  discrepancies = [];
  findings = [];
}

pub record DnsState : Type 0 where
  pub hostname : Text
  pub name : Text
  pub record_type : Text
  pub expected : Option (List Text)
  pub status : CheckStatus
  pub condition : StateCondition
  pub unavailable : Bool
  pub found : List Text
  pub error : Text
  pub findings : List Finding

pub record EmailState : Type 0 where
  pub provider : Text
  pub status : CheckStatus
  pub condition : StateCondition
  pub unavailable : Bool
  pub spf : Bool
  pub dmarc : Bool
  pub dkim_expected : Bool
  pub dkim_valid : List Text
  pub mx : List Text
  pub error : Text
  pub findings : List Finding

pub record DnssecResult : Type 0 where
  pub status : CheckStatus
  pub condition : StateCondition
  pub valid : Bool
  pub has_ds : Bool
  pub has_dnskey : Bool
  pub ds_matches_dnskey : Bool
  pub rrsig_valid : Bool
  pub rrsig_expiry : Text
  pub chain_intact : Bool
  pub algorithms : List Text
  pub source : Text
  pub network_error : Bool
  pub disabled : Bool
  pub error : Text
  pub findings : List Finding

-- `DNSSECResult{}`
abbrev pub zero_dnssec_result : DnssecResult
zero_dnssec_result = record {
  status = unknown;
  condition = zero_condition;
  valid = false;
  has_ds = false;
  has_dnskey = false;
  ds_matches_dnskey = false;
  rrsig_valid = false;
  rrsig_expiry = [];
  chain_intact = false;
  algorithms = [];
  source = [];
  network_error = false;
  disabled = false;
  error = [];
  findings = [];
}

pub record NsHealthServerResult : Type 0 where
  pub nameserver : Text
  pub hidden : Bool
  pub authoritative : Bool
  pub has_soa : Bool
  pub soa_serial : ℕ
  pub has_dnskey : Bool
  pub dnskey_match : Bool
  pub unreachable : Bool
  pub error : Text

pub record NsHealthResult : Type 0 where
  pub valid : Bool
  pub status : CheckStatus
  pub condition : StateCondition
  pub unavailable : Bool
  pub servers : List NsHealthServerResult
  pub findings : List Finding

pub record CycleMetadata : Type 0 where
  pub id : ℕ
  pub phase : Text
  pub outcome : Text
  pub started_at : Text
  pub finished_at : Text
  pub last_success_at : Text
  pub duration_ms : ℕ
  pub overrun : Bool

-- An optional map is `none` where Go's map is nil.
pub record CheckState : Type 0 where
  pub rdap : Map Text RdapState
  pub dns : Map Text DnsState
  pub email : Map Text EmailState
  pub dnssec : Option (Map Text DnssecResult)
  pub ns_health : Option (Map Text NsHealthResult)
  pub caa : Option (Map Text CaaResult)
  pub last_updated : Text
  pub next_refresh : Text
  pub cycle : CycleMetadata

pub record RdapSnapshot : Type 0 where
  pub registrar : Text
  pub registrar_iana_id : Text
  pub expiration : Text
  pub nameservers : List Text
  pub domain_status : List Text
  pub dnssec : Bool
  pub source : Text
  pub protocol_used : Text
  pub query_duration_ms : ℕ
  pub registry_tier : Option DomainTierData
  pub registrar_tier : Option DomainTierData
  pub discrepancies : List Text
  pub err : MaybeError

pub record NsDelegationSnapshot : Type 0 where
  pub nameservers : List Text
  pub err : MaybeError

pub record NsSnapshot : Type 0 where
  pub nameserver : Text
  pub hidden : Bool
  pub authoritative : Bool
  pub has_soa : Bool
  pub soa_serial : ℕ
  pub has_dnskey : Bool
  pub dnskeys : List Text
  pub dnskey_err : MaybeError
  pub partial_error : MaybeError
  pub address_lookup_unavailable : Bool
  pub unreachable : Bool
  pub err : MaybeError

pub record DnsObservation : Type 0 where
  pub resolver : Text
  pub records : List Text
  pub err : MaybeError

-- A nil `ExpectedRecords` means that the task's own values are expected.
pub record DnsSnapshot : Type 0 where
  pub records : List Text
  pub expected_records : Option (List Text)
  pub observations : List DnsObservation
  pub err : MaybeError

pub record EmailSnapshot : Type 0 where
  pub mx_records : List Text
  pub spf_records : List Text
  pub dmarc_records : List Text
  pub dkim_results : Map Text Bool
  pub mx_err : MaybeError
  pub spf_err : MaybeError
  pub dmarc_err : MaybeError
  pub dkim_errs : Map Text MaybeError
