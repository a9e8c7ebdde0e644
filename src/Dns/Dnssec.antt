-- ===== src/Dns/Dnssec.antt =====
-- DNSSEC: finalizeDNSSECResult and EvaluateDNSSEC in src/internal/monitor/dns.go.
use domain_monitor.Base.{
  ◌≡◌, Bool, true, false, not, ◌&&◌, ◌||◌, [], arith, if◌then◌else◌, is_empty,
}
use domain_monitor.Text.{Text, codes, text_beq, has_substring}
use domain_monitor.Types.Code
use domain_monitor.Types.Status.{CheckStatus, ok, failed, same_status}
use domain_monitor.Types.Condition.{StateCondition, condition, zero_condition, is_zero}
use domain_monitor.Types.Config.{DomainConfig}
use domain_monitor.Types.Results.{DnssecResult, zero_dnssec_result}

unfoldable pub source_local_only : Text
source_local_only = codes "local_only"

-- A text for a result that has none yet.
abbrev pub with_error : Text → DnssecResult → DnssecResult
with_error text res = record res {
  valid = false;
  error = if is_empty res.error then text else res.error;
}

unfoldable pub finalize_dnssec_result : DnssecResult → DnssecResult
unfolding source_local_only
finalize_dnssec_result res =
    let is_local = text_beq res.source source_local_only in
    if res.has_ds && res.has_dnskey && res.ds_matches_dnskey && res.rrsig_valid
    then if res.chain_intact && not is_local
      then record res { valid = true; error = [] }
      else if is_local
      then with_error
          (codes "Local DNSSEC records verified; upstream DoH chain integrity unavailable") res
      else with_error (codes "Upstream validating resolver returned AD=false (chain broken)") res
    else if not res.has_ds && not res.has_dnskey
    then record res { valid = false }
    else with_error (codes "DNSSEC Validation Failed") res

-- The switch over the results that are not valid, the last of which leaves no condition.
unfoldable pub dnssec_condition : DnssecResult → StateCondition
dnssec_condition res =
    if res.network_error
    then condition Code.dnssec_network_error res.error
    else if not (is_empty res.error) && has_substring res.error (codes "query failed")
    then condition Code.dns_lookup_failed res.error
    else if not res.has_ds && not res.has_dnskey
    then condition Code.dnssec_disabled []
    else if not res.has_ds
    then condition Code.dnssec_no_ds []
    else if not res.has_dnskey
    then condition Code.dnssec_no_dnskey []
    else if not res.ds_matches_dnskey
    then condition Code.dnssec_ds_mismatch []
    else if not res.rrsig_valid
    then condition Code.dnssec_rrsig_failed []
    else if not res.chain_intact
    then condition Code.dns_lookup_failed res.error
    else zero_condition

pub record DnssecVerdict : Type 0 where
  pub status : CheckStatus
  pub cond : StateCondition
  pub result : DnssecResult

unfoldable pub evaluate_dnssec : DomainConfig → DnssecResult → DnssecVerdict
unfolding dnssec_condition source_local_only
evaluate_dnssec target res =
    let absent = codes "validateDNSSEC returned nil" in
    if not target.dnssec
    then record { status = ok; cond = zero_condition; result = zero_dnssec_result }
    else if is_empty res.source
    then record {
      status = failed;
      cond = condition Code.dnssec_network_error absent;
      result = record res { source = source_local_only; error = absent; valid = false };
    }
    else if not res.valid
    then record { status = failed; cond = dnssec_condition res; result = res }
    else record { status = ok; cond = condition Code.dnssec_verified []; result = res }

-- The evidence that makes a signed zone right.
unfoldable pub chain_of_trust : DnssecResult → Bool
unfolding source_local_only
chain_of_trust res =
    res.has_ds
    && res.has_dnskey
    && res.ds_matches_dnskey
    && res.rrsig_valid
    && res.chain_intact
    && not (text_beq res.source source_local_only)

-- On every evidence, as the fetch finishes it: the check of a domain that needs no DNSSEC is ok;
-- that of one that does is ok exactly when there is a DS record and a key that match, a valid
-- signature, and a chain that an upstream resolver (named by the source) confirms, and failed
-- otherwise. In particular a zone that is verified only locally never passes.
pub evaluate_dnssec-ok_iff :
    (target : DomainConfig) (res : DnssecResult)
    → let status = (evaluate_dnssec target (finalize_dnssec_result res)).status in
      let trusted = not target.dnssec || not (is_empty res.source) && chain_of_trust res in
      (same_status status ok ≡ trusted) × (same_status status failed ≡ not trusted)
unfolding evaluate_dnssec finalize_dnssec_result chain_of_trust source_local_only
evaluate_dnssec-ok_iff target res = (ground arith, ground arith)

-- A required check that fails has a condition, and so an alert, if no evidence has both a chain
-- that is intact and a source that is only local.
evaluate_dnssec_told :
    (target : DomainConfig) (res : DnssecResult)
    → target.dnssec ≡ true
    → (res.chain_intact && text_beq res.source (codes "local_only")) ≡ false
    → is_zero (evaluate_dnssec target (finalize_dnssec_result res)).cond ≡ false
unfolding evaluate_dnssec finalize_dnssec_result is_zero dnssec_condition source_local_only
evaluate_dnssec_told target res h e = ground (arith, h, e)
