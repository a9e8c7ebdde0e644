-- ===== src/Dns/Health.antt =====
-- The health of the nameservers: EvaluateNSHealth in src/internal/monitor/dns.go, and
-- evaluateNSHealthResult in src/internal/monitor/runtime.go.
pub mod Agreement
use domain_monitor.Base.{
  ℕ, Bool, true, false, not, ◌&&◌, ◌||◌, List, [], ◌∷◌, Option, none, some, if◌then◌else◌, is_empty,
  is_some, any, ◌==◌, insert,
}
use domain_monitor.Text.{Text, text_beq, text_eq}
use domain_monitor.Errors.{errors_join, error_text}
use domain_monitor.Types.Code
use domain_monitor.Types.Status.{CheckStatus, ok, failed, warning, same_status}
use domain_monitor.Types.Condition.{
  StateCondition, condition, zero_condition, is_zero, ConditionTracker, new_tracker, promote,
  findings_from_conditions,
}
use domain_monitor.Types.Config.{DomainConfig}
use domain_monitor.Types.Results.{NsSnapshot, NsHealthServerResult, NsHealthResult, CheckState}

-- slices.Equal
unfoldable pub same_texts : List Text → List Text → Bool
same_texts [] [] = true
same_texts [] (y ∷ ys) = false
same_texts (x ∷ xs) [] = false
same_texts (x ∷ xs) (y ∷ ys) = text_beq x y && same_texts xs ys

-- What one server shows by itself.
unfoldable pub judge_server : Bool → NsSnapshot → ConditionTracker → ConditionTracker
unfolding promote
judge_server dnssec srv ct =
    let answered =
      if srv.unreachable
      then promote ct failed Code.ns_unreachable srv.nameserver
      else if not srv.authoritative
      then promote ct failed Code.ns_not_authoritative srv.nameserver
      else if not srv.has_soa
      then promote ct failed Code.ns_missing_soa srv.nameserver
      else ct in
    let whole =
      if is_some srv.partial_error
      then promote answered warning Code.ns_unreachable srv.nameserver
      else answered in
    if dnssec && (is_some srv.dnskey_err || not srv.has_dnskey)
    then promote whole failed Code.ns_dnskey_mismatch srv.nameserver
    else whole

-- What it shows next to the first server that answered for the zone.
unfoldable pub judge_against : Bool → NsSnapshot → NsSnapshot → ConditionTracker → ConditionTracker
unfolding promote same_texts
judge_against dnssec baseline srv ct =
    let serial =
      if not (srv.soa_serial == baseline.soa_serial)
      then promote ct warning Code.ns_soa_mismatch srv.nameserver
      else ct in
    if dnssec && not (same_texts baseline.dnskeys srv.dnskeys)
    then promote serial failed Code.ns_dnskey_mismatch srv.nameserver
    else serial

-- The loop, with `baseline`.
unfoldable pub judge_servers :
    Bool → Option NsSnapshot → List NsSnapshot → ConditionTracker → ConditionTracker
unfolding judge_server judge_against
judge_servers dnssec baseline [] ct = ct
judge_servers dnssec baseline (srv ∷ snapshots) ct =
    let judged = judge_server dnssec srv ct in
    if not srv.authoritative || not srv.has_soa
    then judge_servers dnssec baseline snapshots judged
    else elim baseline [
      | none ↦ judge_servers dnssec (some srv) snapshots judged
      | some b ↦ judge_servers dnssec (some b) snapshots (judge_against dnssec b srv judged)
    ]

unfoldable pub evaluate_ns_health : DomainConfig → List NsSnapshot → CheckStatus × StateCondition
unfolding judge_servers is_zero
evaluate_ns_health target snapshots =
    let ct = judge_servers target.dnssec none snapshots new_tracker in
    if is_empty snapshots
    then if not (is_empty target.nameservers)
      then (failed, condition Code.ns_unreachable target.domain)
      else (ok, zero_condition)
    else (
      ct.status,
      if is_zero ct.cond then condition Code.ns_sync_verified target.domain else ct.cond,
    )

-- The first loop of evaluateNSHealthResult: the baselines, and whether an issue is confirmed.
unfoldable pub confirms_alone : Bool → NsSnapshot → Bool
confirms_alone dnssec s =
    not s.address_lookup_unavailable && (s.unreachable || is_some s.partial_error)
    || not s.unreachable && (not s.authoritative || not s.has_soa)
    || dnssec && (is_some s.dnskey_err || not s.has_dnskey)

unfoldable pub confirms_issue : Bool → Option NsSnapshot → List NsSnapshot → Bool
unfolding confirms_alone same_texts
confirms_issue dnssec baseline [] = false
confirms_issue dnssec baseline (s ∷ snapshots) =
    confirms_alone dnssec s
    || (if s.authoritative && s.has_soa
        then elim baseline [
          | none ↦ confirms_issue dnssec (some s) snapshots
          | some b ↦
              not (s.soa_serial == b.soa_serial)
              || dnssec && not (same_texts b.dnskeys s.dnskeys)
              || confirms_issue dnssec (some b) snapshots
        ]
        else confirms_issue dnssec baseline snapshots)

unfoldable pub dnskey_baseline : List NsSnapshot → List Text
dnskey_baseline [] = []
dnskey_baseline (s ∷ snapshots) =
    let rest = dnskey_baseline snapshots in if s.authoritative && s.has_soa then s.dnskeys else rest

unfoldable pub server_result : List Text → NsSnapshot → NsHealthServerResult
unfolding errors_join error_text same_texts
server_result baseline s = record {
  nameserver = s.nameserver;
  hidden = s.hidden;
  authoritative = s.authoritative;
  has_soa = s.has_soa;
  soa_serial = s.soa_serial;
  has_dnskey = s.has_dnskey;
  dnskey_match =
      if not (is_empty baseline) || not (is_empty s.dnskeys)
      then same_texts baseline s.dnskeys
      else true;
  unreachable = s.unreachable;
  error = error_text (errors_join (s.err ∷ s.partial_error ∷ s.dnskey_err ∷ []));
}

unfoldable pub server_results : List Text → List NsSnapshot → List NsHealthServerResult
unfolding server_result
server_results baseline [] = []
server_results baseline (s ∷ snapshots) =
    server_result baseline s ∷ server_results baseline snapshots

-- A write to a nil map would panic; newCycleState makes the map when a domain has nameservers.
unfoldable pub evaluate_ns_health_result : DomainConfig → List NsSnapshot → CheckState → CheckState
unfolding evaluate_ns_health confirms_issue dnskey_baseline server_results findings_from_conditions
    any
evaluate_ns_health_result domain snapshots state =
    let (status, cond) = evaluate_ns_health domain snapshots in
    let result : NsHealthResult = record {
      valid = same_status status ok;
      status = status;
      condition = cond;
      unavailable =
          not (same_status status ok)
          && any (λ (s : NsSnapshot). s.address_lookup_unavailable) snapshots
          && not (confirms_issue domain.dnssec none snapshots);
      servers = server_results (dnskey_baseline snapshots) snapshots;
      findings = findings_from_conditions status (cond ∷ []);
    } in
    if not (is_empty domain.nameservers)
    then elim state.ns_health [
      | none ↦ state
      | some m ↦ record state { ns_health = some (insert domain.domain result m) }
    ]
    else state
