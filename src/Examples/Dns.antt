-- ===== src/Examples/Dns.antt =====
-- Examples for the evaluation of DNS evidence.
use domain_monitor.Base.{
  ℕ, ◌≤◌, ◌≡◌, refl, Bool, true, false, not, ◌&&◌, ◌||◌, List, [], ◌∷◌, Option, none, some,
  is_empty, is_some, all, All, distinct, length, if◌then◌else◌, arith,
}
use domain_monitor.Text.{Text, codes, ascii, text_beq, text_eq}
use domain_monitor.Errors.{Error, MaybeError, error_is, nxdomain, servfail}
use domain_monitor.Types.Code
use domain_monitor.Types.Status.{ok, failed, mismatch, same_status}
use domain_monitor.Types.Condition.{condition}
use domain_monitor.Types.Config.{DomainConfig, DnsTask}
use domain_monitor.Types.Results.{DnssecResult, zero_dnssec_result, DnsSnapshot, NsSnapshot}
use domain_monitor.Dns.Records.{expects_absence, evaluate_dns}
use domain_monitor.Dns.Records.Match.{records_match, evaluate_dns-ok_iff}
use domain_monitor.Dns.Dnssec.{
  finalize_dnssec_result, evaluate_dnssec, chain_of_trust, evaluate_dnssec-ok_iff,
}
use domain_monitor.Dns.Health.{evaluate_ns_health}
use domain_monitor.Dns.Health.Agreement.{is_sound, agrees_with, evaluate_ns_health-ok_iff}
use domain_monitor.Dns.Resolvers.{collect_dns_observations, query_dns}
use domain_monitor.Dns.Resolvers.Unanimity.{unanimous_absence}
use domain_monitor.Dns.Resolvers.Absence.{endpoints, Answered, query_dns-nxdomain}
use domain_monitor.Examples.Expired.{domain_named, task_named}

abbrev task : DnsTask
task = record (task_named (codes "www") (codes "www.a.org")) {
  expected = some (codes "192.0.2.1" ∷ codes "192.0.2.2" ∷ []);
}

abbrev answer : DnsSnapshot
answer = record {
  records = codes "192.0.2.2" ∷ codes "192.0.2.9" ∷ [];
  expected_records = none;
  observations = [];
  err = none;
}

evaluate_dns_runs : evaluate_dns ascii task answer ≡ (
  mismatch,
  condition Code.dns_mismatch
      (codes "missing expected records: 192.0.2.1 | unauthorized records: 192.0.2.9"),
)
unfolding evaluate_dns text_beq
evaluate_dns_runs = refl

evaluate_dns-ok_iff_example :
    let status = (evaluate_dns ascii task answer).0 in
    let absent = expects_absence task && error_is answer.err nxdomain in
    let asked =
      if is_some answer.expected_records
      then record task { expected = answer.expected_records }
      else task in
    let unusable = is_some answer.err && not absent in
    let matches = records_match ascii asked (if absent then [] else answer.records) in
    (same_status status failed ≡ unusable)
    × (same_status status ok ≡ (not unusable && matches))
    × (same_status status mismatch ≡ (not unusable && not matches))
evaluate_dns-ok_iff_example = evaluate_dns-ok_iff ascii task answer

abbrev signed : DomainConfig
signed = record (domain_named (codes "a.org") false) { dnssec = true }

abbrev chain : DnssecResult
chain = record zero_dnssec_result {
  has_ds = true;
  has_dnskey = true;
  ds_matches_dnskey = true;
  rrsig_valid = true;
  chain_intact = true;
  source = codes "https://resolver.example";
}

evaluate_dnssec_runs : (evaluate_dnssec signed (finalize_dnssec_result chain)).status ≡ ok
unfolding evaluate_dnssec finalize_dnssec_result text_beq
evaluate_dnssec_runs = refl

evaluate_dnssec-ok_iff_example :
    let status = (evaluate_dnssec signed (finalize_dnssec_result chain)).status in
    let trusted = not signed.dnssec || not (is_empty chain.source) && chain_of_trust chain in
    (same_status status ok ≡ trusted) × (same_status status failed ≡ not trusted)
evaluate_dnssec-ok_iff_example = evaluate_dnssec-ok_iff signed chain

abbrev server : Text → ℕ → NsSnapshot
server name serial = record {
  nameserver = name;
  hidden = false;
  authoritative = true;
  has_soa = true;
  soa_serial = serial;
  has_dnskey = true;
  dnskeys = codes "key" ∷ [];
  dnskey_err = none;
  partial_error = none;
  address_lookup_unavailable = false;
  unreachable = false;
  err = none;
}

evaluate_ns_health-ok_iff_example :
    same_status
      (evaluate_ns_health signed (server (codes "ns1") 7 ∷ server (codes "ns2") 8 ∷ [])).0
      ok
    ≡ (is_sound true (server (codes "ns1") 7)
        && all
            (λ s. is_sound true s && agrees_with true (server (codes "ns1") 7) s)
            (server (codes "ns2") 8 ∷ []))
evaluate_ns_health-ok_iff_example =
    evaluate_ns_health-ok_iff signed (server (codes "ns1") 7) (server (codes "ns2") 8 ∷ [])

abbrev absence : Error
absence = record { message = codes "no such host (NXDOMAIN)"; chain = nxdomain ∷ [] }

-- One resolver, which is listed twice, knows no such name, the others fail.
abbrev query : List Text → List Text × MaybeError
query [] = ([], none)
query (r ∷ resolvers) =
    if text_beq r (codes "10.0.0.1:53")
    then ([], some absence)
    else ([], some (record { message = codes "server failure"; chain = servfail ∷ [] }))

abbrev resolvers : List Text
resolvers =
    codes "10.0.0.1:53" ∷ codes "10.0.0.1:53" ∷ codes "10.0.0.2:53" ∷ codes "10.0.0.3:53" ∷ []

abbrev joined_port : Text → Text → Text
joined_port host port = host

query_dns_runs :
    error_is (query_dns ascii (λ t. true) joined_port query (codes "a.org") resolvers).1 nxdomain
    ≡ false
unfolding query_dns error_is text_beq domain_monitor.Base.lookup domain_monitor.Base.insert
query_dns_runs = refl

query_dns-nxdomain_example :
    let selected =
      (collect_dns_observations ascii
        (λ t. true)
        joined_port
        2
        (λ r. query (r ∷ []))
        resolvers
        []
        []
        []).1 in
    (error_is (query_dns ascii (λ t. true) joined_port query (codes "a.org") resolvers).1 nxdomain
      ≡ unanimous_absence selected)
    × (distinct (endpoints ascii (λ t. true) joined_port selected) ≡ true)
    × All (Answered (λ r. query (r ∷ [])) resolvers) selected
query_dns-nxdomain_example =
    query_dns-nxdomain ascii (λ t. true) joined_port query (codes "a.org") resolvers (omega arith)
