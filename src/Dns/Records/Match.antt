-- ===== src/Dns/Records/Match.antt =====
-- When found records pass, by a description that collects nothing.
use domain_monitor.Base.{
  ◌≡◌, refl, Bool, true, false, not, ◌&&◌, ◌||◌, List, [], ◌∷◌, if◌then◌else◌, is_empty, is_some,
  any, all, contains, get_or_else, arith,
}
use domain_monitor.Text.{Text, codes, text_beq, text_eq, Unicode, join}
use domain_monitor.Errors.{error_is, nxdomain}
use domain_monitor.Types.Status.{ok, failed, mismatch, same_status}
use domain_monitor.Types.Config.{DnsTask}
use domain_monitor.Types.Results.{DnsSnapshot}
use domain_monitor.Dns.Records.{
  not_in, caa_tag_is_unconstrained, unauthorized, text_matches, text_reasons, validate_text_records,
  match_mode, tolerates, validate_any_of, validate_exact, validate_records_with_reason,
  expects_absence, evaluate_dns,
}

is_empty-not_in :
    (expected found : List Text) → is_empty (not_in expected found) ≡ all (contains found) expected
unfolding not_in all
is_empty-not_in [] found = refl
is_empty-not_in (e ∷ expected) found = ground (arith, is_empty-not_in expected found)

validate_any_of-valid :
    (expected found : List Text)
    → (validate_any_of expected found).valid ≡ any (contains expected) found
unfolding validate_any_of
validate_any_of-valid expected found = ground arith

module _ (u : Unicode) where
  -- Whether a found record is expected, or of a tag that the policy leaves open.
  unfoldable pub is_allowed : Bool → List Text → Text → Bool
  is_allowed tolerant expected f =
      contains expected f || tolerant && caa_tag_is_unconstrained u f expected

  is_empty-unauthorized :
      (tolerant : Bool) (expected found : List Text)
      → is_empty (unauthorized u tolerant expected found) ≡ all (is_allowed tolerant expected) found
  unfolding unauthorized all is_allowed
  is_empty-unauthorized tolerant expected [] = refl
  is_empty-unauthorized tolerant expected (f ∷ found) =
      ground (arith, is_empty-unauthorized tolerant expected found)

  -- Whether every expected text has a match among the found ones.
  unfoldable pub all_matched : Bool → List Text → List Text → Bool
  all_matched prefix expected found = all (λ e. any (text_matches u prefix e) found) expected

  is_empty-text_reasons :
      (prefix : Bool) (found : List Text) (summary : Text) (expected : List Text)
      → is_empty (text_reasons u prefix found summary expected) ≡ all_matched prefix expected found
  unfolding text_reasons all all_matched
  is_empty-text_reasons prefix found summary [] = refl
  is_empty-text_reasons prefix found summary (e ∷ expected) =
      ground (arith, is_empty-text_reasons prefix found summary expected)

  validate_text_records-valid :
      (expected found : List Text) (prefix : Bool)
      → (validate_text_records u expected found prefix).valid ≡ all_matched prefix expected found
  unfolding validate_text_records all_matched all
  validate_text_records-valid [] found prefix = refl
  validate_text_records-valid (e ∷ expected) found prefix =
      ground (arith, is_empty-text_reasons prefix found (join (codes ", ") found) (e ∷ expected))

  validate_exact-valid :
      (tolerant : Bool) (expected found : List Text)
      → (validate_exact u tolerant expected found).valid
        ≡ (all (contains found) expected && all (is_allowed tolerant expected) found)
  unfolding validate_exact
  validate_exact-valid tolerant expected found =
      ground (arith, is_empty-not_in expected found, is_empty-unauthorized tolerant expected found)

  -- What each match type asks of the found records.
  unfoldable pub records_match : DnsTask → List Text → Bool
  unfolding all_matched
  records_match target found =
      let mode = match_mode u target in
      let expected = get_or_else target.expected [] in
      if text_beq mode (codes "prefix")
      then all_matched true expected found
      else if text_beq mode (codes "contains")
      then all_matched false expected found
      else if text_beq mode (codes "any_of")
      then any (contains expected) found
      else all (contains found) expected && all (is_allowed (tolerates target) expected) found

  validate_records_with_reason-valid :
      (target : DnsTask) (found : List Text)
      → (validate_records_with_reason u target found).valid ≡ records_match target found
  unfolding validate_records_with_reason records_match
  validate_records_with_reason-valid target found =
      let expected = get_or_else target.expected [] in
      ground (
        arith,
        validate_text_records-valid expected found true,
        validate_text_records-valid expected found false,
        validate_any_of-valid expected found,
        validate_exact-valid (tolerates target) expected found,
      )

  -- On every input: a DNS check fails exactly when the lookup did, except for an absent name where
  -- absence is expected; otherwise it is ok exactly when the found records (none for an absent name)
  -- match the expected ones (those of the snapshot, if it has any, and else the task's) as the match
  -- type asks, and a mismatch otherwise. For the exact type that is: every expected record is
  -- found, and every found one is expected or has a CAA tag that the policy leaves open.
  pub evaluate_dns-ok_iff :
      (target : DnsTask) (snapshot : DnsSnapshot)
      → let status = (evaluate_dns u target snapshot).0 in
        let absent = expects_absence target && error_is snapshot.err nxdomain in
        let asked =
          if is_some snapshot.expected_records
          then record target { expected = snapshot.expected_records }
          else target in
        let unusable = is_some snapshot.err && not absent in
        let matches = records_match asked (if absent then [] else snapshot.records) in
        (same_status status failed ≡ unusable)
        × (same_status status ok ≡ (not unusable && matches))
        × (same_status status mismatch ≡ (not unusable && not matches))
  unfolding evaluate_dns
  evaluate_dns-ok_iff target snapshot =
      let absent = expects_absence target && error_is snapshot.err nxdomain in
      let asked =
        if is_some snapshot.expected_records
        then record target { expected = snapshot.expected_records }
        else target in
      let valid =
        validate_records_with_reason-valid asked (if absent then [] else snapshot.records) in
      (ground (arith, valid), ground (arith, valid), ground (arith, valid))
