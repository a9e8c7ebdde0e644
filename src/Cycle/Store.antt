-- ===== src/Cycle/Store.antt =====
-- The result of a DNS task and where it is stored: evaluateDNSCheck and storeDNSResult in
-- src/internal/monitor/runtime.go, and storeDNSResultValue in types.go. The results of the tasks that
-- stand for a CAA policy go to the map of CAA results, under the domain.
pub mod Policy
pub mod Active
pub mod Kept
use domain_monitor.Base.{
  ℕ, not, ◌&&◌, ◌||◌, List, [], ◌∷◌, ◌++◌, Option, none, some, ◌==◌, if◌then◌else◌, get_or_else,
  is_empty, is_some, contains, insert, get_elem?,
}
use domain_monitor.Text.{
  Text, codes, text_beq, text_eq, Unicode, cut, has_prefix, trim, trim_prefix, one_of, to_lower,
}
use domain_monitor.Errors.{error_is, nxdomain}
use domain_monitor.Types.Code
use domain_monitor.Types.Status.{ok, unknown, same_status}
use domain_monitor.Types.Condition.{is_zero, findings_from_conditions}
use domain_monitor.Types.Config.{internal_caa_task_prefix, DnsTask, AppConfig}
use domain_monitor.Types.Results.{CaaResult, DnsState, DnsSnapshot, CheckState}
use domain_monitor.Dns.Records.{evaluate_dns}

-- DNSResult
pub record DnsResult : Type 0 where
  pub name : Text
  pub state : DnsState

-- strings.SplitN(rec, " ", 3), where that gives three parts.
unfoldable pub caa_parts : Text → Option (Text × Text × Text)
unfolding cut
caa_parts rec =
    let (flags, behind) = cut b' ' rec in
    elim behind [
      | none ↦ none
      | some s ↦
          let (tag, rest) = cut b' ' s in
          elim rest [ none ↦ none | some value ↦ some (flags, tag, value) ]
    ]

unfoldable pub unquoted : Text → Text
unfolding trim
unquoted value = trim (one_of (codes "\"")) value

-- An authority under the list of its tag.
unfoldable pub add_authority : Text → Text → CaaResult → CaaResult
unfolding text_beq
add_authority tag value caa =
    if text_beq tag (codes "issue")
    then record caa { issue = caa.issue ++ value ∷ [] }
    else if text_beq tag (codes "issuewild")
    then record caa { issue_wild = caa.issue_wild ++ value ∷ [] }
    else if text_beq tag (codes "issuemail")
    then record caa { issue_mail = caa.issue_mail ++ value ∷ [] }
    else caa

-- An authority that the configuration does not name, where the check did not pass.
unfoldable pub add_unknown : List Text → Text → Text → CaaResult → CaaResult
add_unknown expected rec authority caa =
    if not caa.valid && not (contains expected rec)
    then record caa { unknown_cas = caa.unknown_cas ++ authority ∷ [] }
    else caa

unfoldable pub store_dns_result_value : DnsResult → CheckState → CheckState
store_dns_result_value res state =
    if same_status res.state.status unknown || is_empty res.name
    then state
    else record state { dns = insert res.name res.state state.dns }

-- A write to a nil map would panic; newCycleState makes the map when a task stands for a policy.
unfoldable pub store_caa : Text → CaaResult → CheckState → CheckState
store_caa domain caa state = elim state.caa [
  | none ↦ state
  | some m ↦ record state { caa = some (insert domain caa m) }
]

module _ (u : Unicode) where
  unfoldable pub add_record : List Text → Text → CaaResult → CaaResult
  unfolding caa_parts unquoted add_authority add_unknown to_lower
  add_record expected rec caa = elim (caa_parts rec) [
    | none ↦ add_unknown expected rec rec caa
    | some (flags, tag, value) ↦
        add_unknown expected rec (unquoted value)
          (add_authority (to_lower u tag) (unquoted value) caa)
  ]

  unfoldable pub add_records : List Text → List Text → CaaResult → CaaResult
  unfolding add_record
  add_records expected [] caa = caa
  add_records expected (rec ∷ found) caa = add_records expected found (add_record expected rec caa)

  unfoldable pub caa_result : DnsState → CaaResult
  unfolding add_records
  caa_result state = add_records (get_or_else state.expected []) state.found (record {
    status = state.status;
    condition = state.condition;
    valid = same_status state.status ok;
    unavailable = state.unavailable;
    issue = [];
    issue_wild = [];
    issue_mail = [];
    unknown_cas = [];
    error = state.error;
    findings = state.findings;
  })

  unfoldable pub evaluate_dns_check : DnsTask → DnsSnapshot → DnsResult
  unfolding evaluate_dns error_is is_zero findings_from_conditions
  evaluate_dns_check task snapshot =
      let (status, cond) = evaluate_dns u task snapshot in
      record {
        name = task.name;
        state = record {
          hostname = task.hostname;
          name = task.name;
          record_type = task.record_type;
          expected = task.expected;
          status = status;
          condition = cond;
          unavailable = is_some snapshot.err && not (error_is snapshot.err nxdomain);
          found = snapshot.records;
          error =
              if not (is_zero cond) && not (cond.code == Code.dns_match_verified)
              then cond.target
              else [];
          findings = findings_from_conditions status (cond ∷ []);
        };
      }

  unfoldable pub store_dns_result : DnsResult → CheckState → CheckState
  unfolding store_dns_result_value store_caa caa_result
  store_dns_result res state =
      if has_prefix res.name internal_caa_task_prefix
      then store_caa (trim_prefix res.name internal_caa_task_prefix) (caa_result res.state) state
      else store_dns_result_value res state

  -- The results of the active tasks, by their indices in the configuration.
  unfoldable pub dns_results : AppConfig → List ℕ → List DnsSnapshot → List DnsResult
  unfolding evaluate_dns_check
  dns_results cfg [] evidence = []
  dns_results cfg (index ∷ active) [] = []
  dns_results cfg (index ∷ active) (snapshot ∷ evidence) =
      let rest = dns_results cfg active evidence in
      elim (get_elem? cfg.dns_records index) [
        | none ↦ rest
        | some task ↦ evaluate_dns_check task snapshot ∷ rest
      ]

  unfoldable pub store_dns_results : List DnsResult → CheckState → CheckState
  unfolding store_dns_result
  store_dns_results [] state = state
  store_dns_results (res ∷ results) state = store_dns_results results (store_dns_result res state)

  -- The loop of evaluateFastEvidence over the DNS tasks.
  unfoldable pub evaluate_dns_tasks :
      AppConfig → List ℕ → List DnsSnapshot → CheckState → CheckState
  unfolding dns_results store_dns_results
  evaluate_dns_tasks cfg active evidence state =
      store_dns_results (dns_results cfg active evidence) state
