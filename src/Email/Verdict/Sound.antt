-- ===== src/Email/Verdict/Sound.antt =====
-- When the e-mail check of a domain is ok, and what its condition is.
use domain_monitor.Base.{
  ◌≡◌, refl, ◌∙◌, Bool, true, false, not, ◌&&◌, ◌||◌, List, [], ◌∷◌, ◌++◌, some, arith, ◌==◌,
  if◌then◌else◌, is_empty, is_some, all, lookup, contains,
}
use domain_monitor.Text.{Text, codes, join, text_eq, Unicode}
use domain_monitor.Errors.{Sentinel, error_text}
use domain_monitor.Types.Code
use domain_monitor.Types.Code.{ResultCode}
use domain_monitor.Types.Status.{ok, same_status}
use domain_monitor.Types.Condition.{StateCondition, condition, is_zero}
use domain_monitor.Types.Config.{DomainConfig, EmailConfig, Providers}
use domain_monitor.Types.Results.{EmailSnapshot}
use domain_monitor.Email.Tags.{has_valid_dmarc_policy, is_spf_policy_record}
use domain_monitor.Email.Verdict.{
  count, provider_of, summarize_dkim, dmarc_failed, is_provider_mx_safe_dynamic, judge_live_mx,
  MxVerdict, evaluate_email_mx, evaluate_email_spf, evaluate_email_dmarc, EmailProgress, add_spf,
  add_dmarc, dkim_expected_of, add_dkim, final_condition, email_progress, judge_email,
  evaluate_email_security, DkimSummary, DmarcVerdict,
}
use domain_monitor.Email.Verdict.Told.{
  tells, Told, all-append, is_empty-append, mx_differences-tells, is_empty-mx_differences,
  error_is-is_some,
}

-- The servers are the expected ones, or in the domains of a known provider.
unfoldable pub mx_in_order : Unicode → EmailConfig → List Text → Providers → Bool
mx_in_order u email live providers =
    if not (is_empty email.mx_records)
    then all (contains live) email.mx_records && all (contains email.mx_records) live
    else is_empty email.provider
      || not (is_some (lookup email.provider providers))
      || is_provider_mx_safe_dynamic u live (provider_of providers email.provider)

-- What sound e-mail records are: servers that answer and are in order, one SPF policy, one DMARC
-- policy, and, where DKIM is expected, a usable key and no failed selector.
unfoldable pub sound_email : Unicode → EmailConfig → EmailSnapshot → Providers → Bool
unfolding mx_in_order
sound_email u email snap providers =
    let dkim = summarize_dkim snap in
    (not (is_some snap.mx_err)
      && not (is_empty snap.mx_records)
      && mx_in_order u email snap.mx_records providers)
    && (not (is_some snap.spf_err) && count (is_spf_policy_record u) snap.spf_records == 1)
    && (not (dmarc_failed snap) && count (has_valid_dmarc_policy u) snap.dmarc_records == 1)
    && (not (dkim_expected_of email providers)
        || not (is_empty dkim.valid_selectors) && not (is_some dkim.network_err))

abbrev started : MxVerdict → EmailProgress
started mx = record { status = mx.status; conditions = mx.conditions }

module _ (u : Unicode) (email : EmailConfig) (snap : EmailSnapshot) (providers : Providers) where
  judge_live_mx-Told : (live : List Text) → Told (started (judge_live_mx u email live providers))
  unfolding judge_live_mx all
  judge_live_mx-Told live = ground (arith, mx_differences-tells email.mx_records live)

  judge_live_mx-ok :
      (live : List Text)
      → same_status (judge_live_mx u email live providers).status ok
        ≡ mx_in_order u email live providers
  unfolding judge_live_mx mx_in_order
  judge_live_mx-ok live = ground (arith, is_empty-mx_differences email.mx_records live)

  evaluate_email_mx-Told : Told (started (evaluate_email_mx u email snap providers))
  unfolding evaluate_email_mx all
  evaluate_email_mx-Told = ground (arith, judge_live_mx-Told snap.mx_records)

  evaluate_email_mx-ok : same_status (evaluate_email_mx u email snap providers).status ok ≡ (
      not (is_some snap.mx_err)
      && not (is_empty snap.mx_records)
      && mx_in_order u email snap.mx_records providers)
  unfolding evaluate_email_mx
  evaluate_email_mx-ok = ground (
    arith,
    judge_live_mx-ok snap.mx_records,
    error_is-is_some snap.mx_err Sentinel.invalid_null_mx,
  )

  evaluate_email_spf-ok :
      let c = (evaluate_email_spf u snap).1 in
      (is_zero c
        ≡ (not (is_some snap.spf_err) && count (is_spf_policy_record u) snap.spf_records == 1))
      × ((is_zero c || tells c) ≡ true)
  unfolding evaluate_email_spf is_zero
  evaluate_email_spf-ok = (ground arith, ground arith)

  evaluate_email_dmarc-ok :
      let d = evaluate_email_dmarc u snap in
      (is_zero d.cond
        ≡ (not (dmarc_failed snap) && count (has_valid_dmarc_policy u) snap.dmarc_records == 1))
      × ((is_zero d.cond || tells d.cond) ≡ true)
  unfolding evaluate_email_dmarc is_zero
  evaluate_email_dmarc-ok = (ground arith, ground arith)

add_spf-Told :
    (c : StateCondition) {p : EmailProgress}
    → (is_zero c || tells c) ≡ true
    → Told p
    → Told (add_spf c p)
      × (same_status (add_spf c p).status ok ≡ (same_status p.status ok && is_zero c))
unfolding add_spf all
add_spf-Told c {p} h t =
    ground (arith, all-append tells p.conditions (c ∷ []), is_empty-append p.conditions (c ∷ []))

add_dmarc-Told :
    (d : DmarcVerdict) {p : EmailProgress}
    → (is_zero d.cond || tells d.cond) ≡ true
    → Told p
    → Told (add_dmarc d p)
      × (same_status (add_dmarc d p).status ok ≡ (same_status p.status ok && is_zero d.cond))
unfolding add_dmarc all
add_dmarc-Told d {p} h t =
    ground (
      arith,
      all-append tells p.conditions (d.cond ∷ []),
      is_empty-append p.conditions (d.cond ∷ []),
    )

-- Whether DKIM is as it has to be.
abbrev dkim_in_order : Bool → DkimSummary → Bool
dkim_in_order expected dkim =
    not expected || not (is_empty dkim.valid_selectors) && not (is_some dkim.network_err)

add_dkim-Told :
    (expected : Bool) (dkim : DkimSummary) {p : EmailProgress}
    → Told p
    → Told (add_dkim expected dkim p)
      × (same_status (add_dkim expected dkim p).status ok
          ≡ (same_status p.status ok && dkim_in_order expected dkim))
unfolding add_dkim all
add_dkim-Told expected dkim {p} t =
    let lost = condition Code.dns_lookup_failed (codes "DKIM: " ++ error_text dkim.network_err) in
    let missing = condition Code.email_missing_dkim (join (codes ", ") dkim.missing_selectors) in
    ground (
      arith,
      all-append tells p.conditions (lost ∷ []),
      is_empty-append p.conditions (lost ∷ []),
      all-append tells p.conditions (missing ∷ []),
      is_empty-append p.conditions (missing ∷ []),
    )

module _ (u : Unicode) (email : EmailConfig) (snap : EmailSnapshot) (providers : Providers) where
  email_progress-Told :
      let p = email_progress u email snap providers in
      Told p × (same_status p.status ok ≡ sound_email u email snap providers)
  unfolding email_progress sound_email
  email_progress-Told =
      let mx = evaluate_email_mx u email snap providers in
      let spf = evaluate_email_spf u snap in
      let dmarc = evaluate_email_dmarc u snap in
      let start = evaluate_email_mx-Told u email snap providers in
      let (spf_zero, spf_tells) = evaluate_email_spf-ok u email snap providers in
      let (dmarc_zero, dmarc_tells) = evaluate_email_dmarc-ok u email snap providers in
      let (t1, e1) = add_spf-Told spf.1 spf_tells start in
      let (t2, e2) = add_dmarc-Told dmarc dmarc_tells t1 in
      let (t3, e3) = add_dkim-Told (dkim_expected_of email providers) (summarize_dkim snap) t2 in
      (t3, cc (e1, e2, e3, spf_zero, dmarc_zero, evaluate_email_mx-ok u email snap providers))

  final_condition-Told :
      (p : EmailProgress)
      → Told p
      → let c = final_condition snap p in
        (is_zero c ≡ false) × ((c.code == Code.email_verified) ≡ same_status p.status ok)
  unfolding final_condition all is_zero
  final_condition-Told p t =
      elim p.conditions
          as (λ cs.
            Told (record p { conditions = cs })
            → (is_zero (final_condition snap (record p { conditions = cs })) ≡ false)
              × (((final_condition snap (record p { conditions = cs })).code == Code.email_verified)
                  ≡ same_status p.status ok)) [
                    | [] ↦ λ t'. ground arith
                    | c ∷ cs ↦ λ t'. ground arith
                  ]
        t

-- For a domain with an e-mail section, whatever was looked up: the check is ok exactly when the
-- mail servers answer and are the expected ones (or lie in the domains of the provider, where that
-- is known), there is one SPF policy and one valid DMARC policy, no query for them failed, and,
-- where selectors are expected, a usable DKIM key was found and none failed. The condition is never
-- empty, it says that the records are verified exactly in that case, and the published state has
-- the status of the check.
pub evaluate_email_security-ok_iff :
    (u : Unicode) (target : DomainConfig) (email : EmailConfig) (snap : EmailSnapshot)
    (providers : Providers)
    → target.email ≡ some email
    → let v = evaluate_email_security u target snap providers in
      let sound = sound_email u email snap providers in
      (same_status v.status ok ≡ sound)
      × (is_zero v.cond ≡ false)
      × ((v.cond.code == Code.email_verified) ≡ sound)
      × (v.state.status ≡ v.status)
unfolding evaluate_email_security judge_email
evaluate_email_security-ok_iff u target email snap providers e =
    let (told, same) = email_progress-Told u email snap providers in
    let (nonzero, verified) =
      final_condition-Told u email snap providers (email_progress u email snap providers) told in
    rw e (same, nonzero, verified ∙ same, refl)
