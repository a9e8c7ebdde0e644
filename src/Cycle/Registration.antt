-- ===== src/Cycle/Registration.antt =====
-- The registration results of a cycle: evaluateRDAPCheck and evaluateRateLimitedEvidence in
-- src/internal/monitor/runtime.go. EvaluateRDAP does not panic on any input of the model, so that
-- the recovery has no counterpart.
use domain_monitor.Base.{
  ℕ, ◌≡◌, false, not, ◌&&◌, List, [], ◌∷◌, Option, none, some, ◌==◌, if◌then◌else◌, is_empty,
  is_some, insert, get_elem?, arith,
}
use domain_monitor.Text.{Text, text_eq, Unicode}
use domain_monitor.Errors.{error_is, error_text, domain_not_found, rdap_not_found}
use domain_monitor.Types.Code
use domain_monitor.Types.Status.{skipped, same_status}
use domain_monitor.Types.Condition.{Time, is_zero, findings_from_conditions}
use domain_monitor.Types.Config.{DomainConfig, is_delegated_zone}
use domain_monitor.Types.Results.{RdapState, RdapSnapshot, CheckState}
use domain_monitor.Lookup.Registration.{evaluate_rdap}
use domain_monitor.Lookup.Registration.Verdict.{confirms_expiry, evaluate_rdap_skipped_iff}

module _ (u : Unicode) (parse_date : Text → Option Time) (now : Time) where
  unfoldable pub evaluate_rdap_check : DomainConfig → RdapSnapshot → RdapState
  unfolding evaluate_rdap findings_from_conditions error_is error_text is_zero
  evaluate_rdap_check domain snapshot =
      let (status, cond) = evaluate_rdap u parse_date now domain snapshot in
      let mismatched = not (is_zero cond) && cond.code == Code.rdap_registrar_mismatch in
      record {
        status = status;
        condition = cond;
        unavailable =
            is_some snapshot.err
            && not (error_is snapshot.err domain_not_found)
            && not (error_is snapshot.err rdap_not_found);
        registrar = snapshot.registrar;
        registrar_iana_id = snapshot.registrar_iana_id;
        registrar_mismatch = mismatched;
        expected_registrar = if mismatched then cond.target else [];
        expiration = snapshot.expiration;
        nameservers = snapshot.nameservers;
        domain_status = snapshot.domain_status;
        dnssec = snapshot.dnssec;
        renewal_price = domain.renewal_price;
        allow_expiry = domain.allow_expiry;
        expiry_confirmed = domain.allow_expiry && same_status status skipped;
        error = error_text snapshot.err;
        is_delegated = false;
        source = snapshot.source;
        protocol_used = snapshot.protocol_used;
        query_duration_ms = snapshot.query_duration_ms;
        registry_tier = snapshot.registry_tier;
        registrar_tier = snapshot.registrar_tier;
        discrepancies = snapshot.discrepancies;
        findings = findings_from_conditions status (cond ∷ []);
      }

  -- The loop over the active domains and the evidence for each. An index past the configuration
  -- would panic; the indices come from the configuration itself.
  unfoldable pub evaluate_rate_limited_evidence :
      List DomainConfig → List ℕ → List RdapSnapshot → CheckState → CheckState
  unfolding evaluate_rdap_check is_delegated_zone
  evaluate_rate_limited_evidence domains [] evidence state = state
  evaluate_rate_limited_evidence domains (i ∷ indices) [] state = state
  evaluate_rate_limited_evidence domains (i ∷ indices) (snapshot ∷ evidence) state =
      elim (get_elem? domains i) [
        | none ↦ evaluate_rate_limited_evidence domains indices evidence state
        | some d ↦ evaluate_rate_limited_evidence domains indices evidence (
            if is_delegated_zone d then state else record state {
              rdap = insert d.domain (evaluate_rdap_check d snapshot) state.rdap;
            })
      ]

  -- On every input: the published result confirms an expiry exactly when the domain may expire and
  -- the evidence says that it has (the registry does not know it, or its date has passed).
  pub evaluate_rdap_check-confirms :
      (domain : DomainConfig) (snapshot : RdapSnapshot)
      → (evaluate_rdap_check domain snapshot).expiry_confirmed ≡ (
          not (is_empty domain.domain)
          && domain.allow_expiry
          && confirms_expiry u parse_date now snapshot)
  unfolding evaluate_rdap_check
  evaluate_rdap_check-confirms domain snapshot =
      ground (arith, evaluate_rdap_skipped_iff u parse_date now domain snapshot)
