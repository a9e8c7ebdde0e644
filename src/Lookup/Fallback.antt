-- ===== src/Lookup/Fallback.antt =====
-- Registration data from RDAP, or from WHOIS where RDAP fails: FetchRDAPSnapshot and
-- fallbackWHOISSnapshot in src/internal/monitor/lookup.go. What fetchRDAP and fetchWHOIS return is
-- an argument; that of WHOIS is read only where the code asks for it.
pub mod Absent
use domain_monitor.Base.{[], ◌∷◌, ◌++◌, none, some, if◌then◌else◌}
use domain_monitor.Text.{Text, codes}
use domain_monitor.Errors.{Error, MaybeError, error_is, domain_not_found, rdap_not_found}
use domain_monitor.Types.Results.{RdapSnapshot}
use domain_monitor.Lookup.Tiers.{zero_rdap_snapshot}

-- A snapshot and an error, as the two fetches return them.
pub record Fetched : Type 0 where
  pub snapshot : RdapSnapshot
  pub err : MaybeError

-- ErrDomainNotFound
abbrev pub domain_not_found_error : Error
domain_not_found_error = record {
  message = codes "domain not found in whois (404)";
  chain = domain_not_found ∷ [];
}

-- fmt.Errorf with two `%w`: the chains of both errors.
unfoldable pub both_failed : Error → Error → Error
both_failed rdap whois = record {
  message = codes "RDAP: " ++ (rdap.message ++ (codes " | WHOIS: " ++ whois.message));
  chain = rdap.chain ++ whois.chain;
}

unfoldable pub fallback_whois_snapshot : Error → Fetched → RdapSnapshot
unfolding both_failed error_is
fallback_whois_snapshot rdap_err whois = elim whois.err [
  | none ↦ whois.snapshot
  | some e ↦
      if error_is (some e) domain_not_found
      then record zero_rdap_snapshot {
        source = codes "whois_404";
        protocol_used = codes "whois";
        err = some domain_not_found_error;
      }
      else record zero_rdap_snapshot {
        protocol_used = codes "whois_failed";
        err = some (both_failed rdap_err e);
      }
]

unfoldable pub fetch_rdap_snapshot : Fetched → Fetched → RdapSnapshot
unfolding fallback_whois_snapshot
fetch_rdap_snapshot rdap whois = elim rdap.err [
  | none ↦ rdap.snapshot
  | some e ↦
      if error_is (some e) rdap_not_found
      then record zero_rdap_snapshot { err = some e; protocol_used = codes "rdap" }
      else fallback_whois_snapshot e whois
]
