-- ===== src/Email/Verdict.antt =====
-- The verdict on a domain's e-mail records: EvaluateEmailSecurity, evaluateEmailMX,
-- evaluateEmailSPF, evaluateEmailDMARC, summarizeDKIM and isProviderMXSafeDynamic in
-- src/internal/monitor/dns.go. The range of Go over a map visits it in the order of the model's list.
pub mod Told
pub mod Sound
use Prim.Native.Nat.{Ordering}
use domain_monitor.Base.{
  ℕ, Bool, true, false, not, ◌&&◌, ◌||◌, List, [], ◌∷◌, ◌++◌, map, Option, none, some, ltb, ◌==◌,
  if◌then◌else◌, is_empty, is_some, get_or_else, any, all, keep, length, Map, lookup, contains,
  sort,
}
use domain_monitor.Text.{Text, codes, text_beq, text_eq, Unicode, has_suffix, join}
use domain_monitor.Errors.{nxdomain, invalid_null_mx, MaybeError, error_is, error_text}
use domain_monitor.Types.Code
use domain_monitor.Types.Status.{
  CheckStatus, unknown, ok, failed, mismatch, warning, hijacked, same_status,
}
use domain_monitor.Types.Condition.{
  StateCondition, condition, zero_condition, is_zero, findings_from_conditions,
}
use domain_monitor.Types.Config.{DomainConfig, EmailConfig, ProviderConfig, Providers}
use domain_monitor.Types.Results.{EmailSnapshot, EmailState}
use domain_monitor.Utils.{normalize_domain}
use domain_monitor.Notify.Order.{compare_text, text_not_after}
use domain_monitor.Email.Tags.{has_valid_dmarc_policy, is_spf_policy_record}

-- `EmailState{}`
abbrev pub zero_email_state : EmailState
zero_email_state = record {
  provider = [];
  status = unknown;
  condition = zero_condition;
  unavailable = false;
  spf = false;
  dmarc = false;
  dkim_expected = false;
  dkim_valid = [];
  mx = [];
  error = [];
  findings = [];
}

-- `count` of a loop over records.
unfoldable pub count : (Text → Bool) → List Text → ℕ
unfolding keep
count p xs = length (keep p xs)

-- The conditions of the servers that differ from the expected ones.
unfoldable pub mx_differences : List Text → List Text → List StateCondition
unfolding contains
mx_differences expected live =
    map (condition Code.email_missing_mx) (keep (λ e. not (contains live e)) expected)
    ++ map (condition Code.email_unauthorized_mx) (keep (λ f. not (contains expected f)) live)

-- `providers[name]`, which is the zero value for an unknown name.
unfoldable pub provider_of : Providers → Text → ProviderConfig
unfolding lookup
provider_of providers name =
    get_or_else (lookup name providers) (record { mx_records = []; dkim_selectors = [] })

-- The selector that is first in order among those with an error, and its error.
unfoldable pub first_error : Map Text MaybeError → Option Text → MaybeError → MaybeError
first_error [] best err = err
first_error ((selector, none) ∷ rest) best err = first_error rest best err
first_error ((selector, some e) ∷ rest) best err =
    let earlier =
      not (is_some err)
      || elim (compare_text selector (get_or_else best [])) [ Ordering.lt ↦ true | _ ↦ false ] in
    first_error rest (if earlier then some selector else best) (if earlier then some e else err)

unfoldable pub keys_with {ℓ} : {V : Type ℓ} → (V → Bool) → Map Text V → List Text
keys_with p [] = []
keys_with p ((k, v) ∷ rest) = if p v then k ∷ keys_with p rest else keys_with p rest

pub record DkimSummary : Type 0 where
  pub valid_selectors : List Text
  pub missing_selectors : List Text
  pub network_err : MaybeError

unfoldable pub summarize_dkim : EmailSnapshot → DkimSummary
unfolding first_error keys_with
summarize_dkim snap = record {
  valid_selectors = sort text_not_after (keys_with (λ f. f) snap.dkim_results);
  missing_selectors =
      sort text_not_after (
        keys_with (λ (e : MaybeError). is_some e) snap.dkim_errs
        ++ keys_with not snap.dkim_results);
  network_err = first_error snap.dkim_errs none none;
}

-- An error that is not the absence of the name.
unfoldable pub dmarc_failed : EmailSnapshot → Bool
unfolding error_is
dmarc_failed snap = is_some snap.dmarc_err && not (error_is snap.dmarc_err nxdomain)

pub record MxVerdict : Type 0 where
  pub live : List Text
  pub status : CheckStatus
  pub conditions : List StateCondition

unfoldable pub is_provider_mx_safe_dynamic : Unicode → List Text → ProviderConfig → Bool
is_provider_mx_safe_dynamic u live provider =
    not (is_empty live)
    && all
        (λ mx.
          any
            (λ suffix.
              text_beq (normalize_domain u mx) suffix
              || has_suffix (normalize_domain u mx) (codes "." ++ suffix))
            provider.mx_records)
        live

-- The default case of the switch, on servers that are there.
unfoldable pub judge_live_mx : Unicode → EmailConfig → List Text → Providers → MxVerdict
judge_live_mx u email live providers =
    let differences = mx_differences email.mx_records live in
    if not (is_empty email.mx_records)
    then record {
      live = live;
      status = if is_empty differences then ok else mismatch;
      conditions = differences;
    }
    else if not (is_empty email.provider)
        && is_some (lookup email.provider providers)
        && not (is_provider_mx_safe_dynamic u live (provider_of providers email.provider))
    then record {
      live = live;
      status = hijacked;
      conditions = condition Code.email_hijacked_mx (join (codes ", ") live) ∷ [];
    }
    else record { live = live; status = ok; conditions = [] }

unfoldable pub evaluate_email_mx : Unicode → EmailConfig → EmailSnapshot → Providers → MxVerdict
unfolding error_is error_text
evaluate_email_mx u email snap providers =
    if error_is snap.mx_err invalid_null_mx
    then record {
      live = [];
      status = mismatch;
      conditions = condition Code.email_invalid_null_mx (error_text snap.mx_err) ∷ [];
    }
    else if is_some snap.mx_err
    then record {
      live = [];
      status = failed;
      conditions = condition Code.dns_lookup_failed (error_text snap.mx_err) ∷ [];
    }
    else if is_empty snap.mx_records
    then record { live = []; status = failed; conditions = condition Code.email_missing_mx [] ∷ [] }
    else judge_live_mx u email snap.mx_records providers

unfoldable pub evaluate_email_spf : Unicode → EmailSnapshot → Bool × StateCondition
evaluate_email_spf u snap =
    let n = count (is_spf_policy_record u) snap.spf_records in
    if is_some snap.spf_err
    then (false, condition Code.dns_lookup_failed (codes "SPF: " ++ error_text snap.spf_err))
    else if n == 0
    then (false, condition Code.email_missing_spf [])
    else if ltb 1 n
    then (false, condition Code.email_multiple_spf [])
    else (true, zero_condition)

pub record DmarcVerdict : Type 0 where
  pub found : Bool
  pub cond : StateCondition
  pub lookup_failed : Bool

unfoldable pub evaluate_email_dmarc : Unicode → EmailSnapshot → DmarcVerdict
evaluate_email_dmarc u snap =
    let n = count (has_valid_dmarc_policy u) snap.dmarc_records in
    let told = codes "DMARC: " ++ error_text snap.dmarc_err in
    if dmarc_failed snap
    then record {
      found = false;
      cond = condition Code.dns_lookup_failed told;
      lookup_failed = true;
    }
    else if n == 0
    then record {
      found = false;
      cond = condition Code.email_missing_dmarc [];
      lookup_failed = false;
    }
    else if ltb 1 n
    then record {
      found = false;
      cond = condition Code.email_multiple_dmarc [];
      lookup_failed = false;
    }
    else record { found = true; cond = zero_condition; lookup_failed = false }

-- The status and the conditions so far.
pub record EmailProgress : Type 0 where
  pub status : CheckStatus
  pub conditions : List StateCondition

abbrev pub warn_if_ok : CheckStatus → CheckStatus
warn_if_ok status = if same_status status ok then warning else status

unfoldable pub add_spf : StateCondition → EmailProgress → EmailProgress
add_spf c p =
    if is_zero c
    then p
    else record { status = warn_if_ok p.status; conditions = p.conditions ++ c ∷ [] }

unfoldable pub add_dmarc : DmarcVerdict → EmailProgress → EmailProgress
add_dmarc d p = if is_zero d.cond then p else record {
  status = if d.lookup_failed then failed else warn_if_ok p.status;
  conditions = p.conditions ++ d.cond ∷ [];
}

unfoldable pub dkim_expected_of : EmailConfig → Providers → Bool
dkim_expected_of email providers =
    not (is_empty email.dkim_selectors)
    || not (is_empty (provider_of providers email.provider).dkim_selectors)

unfoldable pub add_dkim : Bool → DkimSummary → EmailProgress → EmailProgress
add_dkim expected dkim p =
    let c =
      if is_some dkim.network_err
      then condition Code.dns_lookup_failed (codes "DKIM: " ++ error_text dkim.network_err)
      else condition Code.email_missing_dkim (join (codes ", ") dkim.missing_selectors) in
    if expected && (is_empty dkim.valid_selectors || is_some dkim.network_err)
    then record { status = warn_if_ok p.status; conditions = p.conditions ++ c ∷ [] }
    else p

unfoldable pub email_errors : EmailSnapshot → DkimSummary → List Text
email_errors snap dkim =
    (if is_some snap.spf_err
      then (codes "SPF lookup error: " ++ error_text snap.spf_err) ∷ []
      else [])
    ++ (if dmarc_failed snap
        then (codes "DMARC lookup error: " ++ error_text snap.dmarc_err) ∷ []
        else [])
    ++ (if is_some dkim.network_err
        then (codes "DKIM lookup error: " ++ error_text dkim.network_err) ∷ []
        else [])

-- The condition that is returned, of those found.
unfoldable pub final_condition : EmailSnapshot → EmailProgress → StateCondition
final_condition snap p = elim p.conditions [
  | c ∷ cs ↦
      if same_status p.status failed && dmarc_failed snap
      then condition Code.dns_lookup_failed (codes "DMARC: " ++ error_text snap.dmarc_err)
      else c
  | [] ↦ if same_status p.status ok then condition Code.email_verified [] else zero_condition
]

pub record EmailVerdict : Type 0 where
  pub status : CheckStatus
  pub cond : StateCondition
  pub state : EmailState

-- The status and the conditions of a domain that has an e-mail section.
unfoldable pub email_progress : Unicode → EmailConfig → EmailSnapshot → Providers → EmailProgress
email_progress u email snap providers =
    let mx = evaluate_email_mx u email snap providers in
    let start : EmailProgress = record { status = mx.status; conditions = mx.conditions } in
    add_dkim (dkim_expected_of email providers) (summarize_dkim snap)
      (add_dmarc (evaluate_email_dmarc u snap) (add_spf (evaluate_email_spf u snap).1 start))

unfoldable pub judge_email : Unicode → EmailConfig → EmailSnapshot → Providers → EmailVerdict
judge_email u email snap providers =
    let p = email_progress u email snap providers in
    let dkim = summarize_dkim snap in
    record {
      status = p.status;
      cond = final_condition snap p;
      state = record {
        provider = email.provider;
        status = p.status;
        condition = zero_condition;
        unavailable = false;
        spf = (evaluate_email_spf u snap).0;
        dmarc = (evaluate_email_dmarc u snap).found;
        dkim_expected = dkim_expected_of email providers;
        dkim_valid = dkim.valid_selectors;
        mx = (evaluate_email_mx u email snap providers).live;
        error = join (codes " | ") (email_errors snap dkim);
        findings = findings_from_conditions p.status p.conditions;
      };
    }

unfoldable pub evaluate_email_security :
    Unicode → DomainConfig → EmailSnapshot → Providers → EmailVerdict
evaluate_email_security u target snap providers = elim target.email [
  | none ↦ record { status = ok; cond = zero_condition; state = zero_email_state }
  | some email ↦ judge_email u email snap providers
]
