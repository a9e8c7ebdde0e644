-- ===== src/Examples/Types.antt =====
-- Examples for the data types.
use domain_monitor.Base.{
  ◌<◌, subst, sym, ◌≢◌, ◌≡◌, refl, ◌≤◌, ◌||◌, true, List, [], ◌∷◌, some, arith, length, any, All,
}
use domain_monitor.Text.{codes}
use domain_monitor.Types.Code
use domain_monitor.Types.Status.{failed, warning, finding_warning, priority_urgent}
use domain_monitor.Types.Condition.{
  StateCondition, condition, zero_condition, is_zero, same_finding, severity_of, new_tracker,
  promote, findings_from_conditions,
}
use domain_monitor.Types.Condition.Findings.{NoRepeat, findings_well_formed, findings_complete}
use domain_monitor.Types.Condition.Tracker.{Promotion, promote_all, worst, promote_all-worst}
use domain_monitor.Types.Names.{
  marshal_result_code, unmarshal_result_code, result_code_roundtrip, enumeration_roundtrip,
  check_status_string, unmarshal_check_status, finding_severity_string, unmarshal_finding_severity,
  alert_priority_string, unmarshal_alert_priority,
}

abbrev conditions : List StateCondition
conditions =
    condition Code.ns_hidden_exposed (codes "ns1")
    ∷ zero_condition
    ∷ condition Code.unauthorized_ns (codes "ns2")
    ∷ condition Code.ns_hidden_exposed (codes "ns1")
    ∷ []

conditions_give_two : length (findings_from_conditions failed conditions) ≡ 2
unfolding findings_from_conditions any same_finding is_zero domain_monitor.Text.text_beq
conditions_give_two = refl

findings_well_formed_example :
    (length (findings_from_conditions failed conditions) ≤ 16)
    × All (λ f. f.severity ≡ severity_of failed) (findings_from_conditions failed conditions)
    × All (λ f. f.code ≢ 0) (findings_from_conditions failed conditions)
    × NoRepeat (findings_from_conditions failed conditions)
findings_well_formed_example = findings_well_formed failed conditions

findings_complete_example :
    All
      (λ c. (is_zero c || any (same_finding c) (findings_from_conditions failed conditions)) ≡ true)
      conditions
findings_complete_example =
    findings_complete failed conditions
      (subst (λ n. n < 16) (sym conditions_give_two) (omega arith))

abbrev promotions : List Promotion
promotions =
    record { status = warning; code = Code.rdap_transfer_unlocked; target = [] }
    ∷ record { status = failed; code = Code.ns_hidden_exposed; target = codes "ns1" }
    ∷ record { status = failed; code = Code.rdap_expired; target = [] }
    ∷ []

promotions_end_failed :
    promote_all new_tracker promotions
    ≡ record { status = failed; cond = condition Code.ns_hidden_exposed (codes "ns1") }
unfolding promote_all promote
promotions_end_failed = refl

promote_all-worst_example : promote_all new_tracker promotions ≡ worst promotions
promote_all-worst_example = promote_all-worst promotions

result_code_runs : marshal_result_code Code.rdap_success ≡ some (codes "rdapSuccess")
unfolding marshal_result_code Code.result_code_names
result_code_runs = refl

result_code_roundtrip_example : unmarshal_result_code (codes "rdapSuccess") ≡ some Code.rdap_success
result_code_roundtrip_example =
    result_code_roundtrip Code.rdap_success (codes "rdapSuccess") result_code_runs

enumeration_roundtrip_example :
    (unmarshal_check_status (check_status_string warning) ≡ some warning)
    × (unmarshal_finding_severity (finding_severity_string finding_warning) ≡ some finding_warning)
    × (unmarshal_alert_priority (alert_priority_string priority_urgent) ≡ some priority_urgent)
enumeration_roundtrip_example = enumeration_roundtrip warning finding_warning priority_urgent
