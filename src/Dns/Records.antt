-- ===== src/Dns/Records.antt =====
-- DNS records against the expected ones: validateRecordsWithReason, validateTextRecords,
-- caaTagIsUnconstrained and EvaluateDNS in src/internal/monitor/dns.go.
pub mod Match
use domain_monitor.Base.{
  ℕ, Bool, true, false, not, ◌&&◌, ◌||◌, List, [], ◌∷◌, ◌++◌, Option, none, some, if◌then◌else◌,
  is_empty, is_some, any, contains, get_or_else, ◌==◌,
}
use domain_monitor.Text.{
  Text, codes, text_beq, text_eq, Unicode, to_lower, equal_fold, trim_space, has_prefix,
  has_substring, cut, join,
}
use domain_monitor.Errors.{error_is, nxdomain, error_text}
use domain_monitor.Types.Code
use domain_monitor.Types.Code.{ResultCode}
use domain_monitor.Types.Status.{CheckStatus, ok, failed, mismatch}
use domain_monitor.Types.Condition.{StateCondition, condition}
use domain_monitor.Types.Config.{DnsTask}
use domain_monitor.Types.Results.{DnsSnapshot}

-- The three results of validateRecordsWithReason.
pub record Validation : Type 0 where
  pub valid : Bool
  pub reason : Text
  pub code : ResultCode

abbrev pub verified : Validation
verified = record { valid = true; reason = []; code = Code.dns_match_verified }

abbrev pub refused : Text → ResultCode → Validation
refused reason code = record { valid = false; reason = reason; code = code }

-- The second field of a CAA record, if strings.SplitN gives three fields.
unfoldable pub caa_tag : Text → Option Text
unfolding cut
caa_tag record_text =
    let (flags, behind) = cut b' ' record_text in
    elim behind [
      | none ↦ none
      | some rest ↦
          let (tag, value) = cut b' ' rest in elim value [ none ↦ none | some v ↦ some tag ]
    ]

-- The loops that collect what is missing.
unfoldable pub not_in : List Text → List Text → List Text
unfolding contains
not_in [] found = []
not_in (e ∷ expected) found =
    let rest = not_in expected found in if contains found e then rest else e ∷ rest

abbrev pub tolerates : DnsTask → Bool
tolerates target = target.domain_caa && text_beq target.record_type (codes "CAA")

unfoldable pub validate_any_of : List Text → List Text → Validation
unfolding contains any join
validate_any_of expected found =
    if any (contains expected) found
    then verified
    else refused
        (codes "none of expected ["
          ++ (join (codes " OR ") expected
              ++ (codes "] matched found [" ++ (join (codes ", ") found ++ codes "]"))))
        Code.dns_mismatch

-- Whether an empty, but given, list of expected values makes a name that does not exist right.
abbrev pub expects_absence : DnsTask → Bool
expects_absence target = is_some target.expected && is_empty (get_or_else target.expected [])

module _ (u : Unicode) where
  unfoldable pub constrains : Text → Text → Bool
  unfolding caa_tag equal_fold
  constrains tag value = elim (caa_tag value) [ none ↦ false | some other ↦ equal_fold u other tag ]

  unfoldable pub caa_tag_is_unconstrained : Text → List Text → Bool
  unfolding caa_tag constrains any
  caa_tag_is_unconstrained found expected = elim (caa_tag found) [
    | none ↦ false
    | some tag ↦ not (any (constrains tag) expected)
  ]

  -- The found records that nothing allows.
  unfoldable pub unauthorized : Bool → List Text → List Text → List Text
  unfolding contains caa_tag_is_unconstrained
  unauthorized tolerant expected [] = []
  unauthorized tolerant expected (f ∷ found) =
      let rest = unauthorized tolerant expected found in
      if contains expected f || tolerant && caa_tag_is_unconstrained f expected
      then rest
      else f ∷ rest

  -- A text as the matching mode compares it; normalizedFound holds the same values.
  unfoldable pub comparable : Bool → Text → Text
  unfolding to_lower trim_space
  comparable prefix text = to_lower u (if prefix then trim_space text else text)

  unfoldable pub text_matches : Bool → Text → Text → Bool
  unfolding comparable has_prefix has_substring
  text_matches prefix expected found =
      if prefix
      then has_prefix (comparable true found) (comparable true expected)
      else has_substring (comparable false found) (comparable false expected)

  unfoldable pub text_reasons : Bool → List Text → Text → List Text → List Text
  unfolding text_matches any
  text_reasons prefix found summary [] = []
  text_reasons prefix found summary (e ∷ expected) =
      let rest = text_reasons prefix found summary expected in
      let subject = if prefix then codes "prefix \"" else codes "substring \"" in
      if any (text_matches prefix e) found
      then rest
      else (subject ++ (e ++ (codes "\" not found in [" ++ (summary ++ codes "]")))) ∷ rest

  unfoldable pub validate_text_records : List Text → List Text → Bool → Validation
  unfolding text_reasons join
  validate_text_records expected found prefix =
      let reasons = text_reasons prefix found (join (codes ", ") found) expected in
      if is_empty expected
      then verified
      else if is_empty reasons
      then verified
      else refused (join (codes "; ") reasons)
          (if prefix then Code.dns_prefix_mismatch else Code.dns_substring_mismatch)

  -- Any match type but the named ones is taken as the exact one.
  unfoldable pub match_mode : DnsTask → Text
  unfolding to_lower trim_space
  match_mode target = to_lower u (trim_space target.match_type)

  unfoldable pub validate_exact : Bool → List Text → List Text → Validation
  unfolding not_in unauthorized join
  validate_exact tolerant expected found =
      let missing = not_in expected found in
      let foreign = unauthorized tolerant expected found in
      let reasons =
        (if is_empty missing
          then []
          else (codes "missing expected records: " ++ join (codes ", ") missing) ∷ [])
        ++ (if is_empty foreign
            then []
            else (codes "unauthorized records: " ++ join (codes ", ") foreign) ∷ []) in
      if is_empty missing && is_empty foreign
      then verified
      else refused (join (codes " | ") reasons) Code.dns_mismatch

  unfoldable pub validate_records_with_reason : DnsTask → List Text → Validation
  unfolding match_mode validate_text_records validate_any_of validate_exact
  validate_records_with_reason target found =
      let mode = match_mode target in
      let expected = get_or_else target.expected [] in
      if text_beq mode (codes "prefix")
      then validate_text_records expected found true
      else if text_beq mode (codes "contains")
      then validate_text_records expected found false
      else if text_beq mode (codes "any_of")
      then validate_any_of expected found
      else validate_exact (tolerates target) expected found

  unfoldable pub evaluate_dns : DnsTask → DnsSnapshot → CheckStatus × StateCondition
  unfolding validate_records_with_reason error_is error_text
  evaluate_dns target snapshot =
      let absent = expects_absence target && error_is snapshot.err nxdomain in
      let asked =
        if is_some snapshot.expected_records
        then record target { expected = snapshot.expected_records }
        else target in
      let verdict = validate_records_with_reason asked (if absent then [] else snapshot.records) in
      if is_some snapshot.err && not absent
      then (failed, condition Code.dns_lookup_failed (error_text snapshot.err))
      else if not verdict.valid
      then (mismatch, condition verdict.code verdict.reason)
      else (ok, condition Code.dns_match_verified [])
