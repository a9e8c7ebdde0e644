-- ===== src/Examples/Email.antt =====
-- The e-mail checks at concrete records.
use domain_monitor.Base.{
  ◌≤◌, ◌≡◌, refl, true, false, not, ◌||◌, [], ◌∷◌, none, some, first_of, if◌then◌else◌, is_empty,
  is_some, all, length, ◌==◌,
}
use domain_monitor.Text.{Text, codes, text_beq, text_eq, ascii}
use domain_monitor.Errors.{Error, servfail, nxdomain}
use domain_monitor.Types.Code
use domain_monitor.Types.Status.{ok, same_status}
use domain_monitor.Types.Condition.{is_zero}
use domain_monitor.Types.Float.{pos}
use domain_monitor.Types.Config.{DomainConfig, EmailConfig, Providers}
use domain_monitor.Types.Results.{EmailSnapshot}
use domain_monitor.Email.Tags.{
  parse_semicolon_tags, has_valid_dmarc_policy, is_spf_policy_record, KeyFormats,
  has_usable_dkim_key,
}
use domain_monitor.Email.Walk.{TxtAnswer, fetch_dmarc_policy}
use domain_monitor.Email.Walk.Evidence.{vouched, failure, fetch_dmarc_policy-safe}
use domain_monitor.Email.Verdict.{evaluate_email_security}
use domain_monitor.Email.Verdict.Sound.{sound_email, evaluate_email_security-ok_iff}

abbrev servfail_error : Error
servfail_error = record { message = codes "SERVFAIL"; chain = servfail ∷ [] }

abbrev nxdomain_error : Error
nxdomain_error = record { message = codes "NXDOMAIN"; chain = nxdomain ∷ [] }

abbrev policy : Text
policy = codes "v=DMARC1; p=reject"

-- Only example.com publishes a policy, and shop.example.com cannot be resolved.
abbrev zone : Text → TxtAnswer
zone host =
    if text_beq host (codes "_dmarc.example.com")
    then record { texts = policy ∷ []; err = none }
    else if text_beq host (codes "_dmarc.shop.example.com")
    then record { texts = []; err = some servfail_error }
    else record { texts = []; err = some nxdomain_error }

walk_finds : (fetch_dmarc_policy ascii zone (codes "a.b.example.com.")).policies ≡ policy ∷ []
unfolding fetch_dmarc_policy domain_monitor.Email.Walk.walk domain_monitor.Email.Walk.judge_answer
    domain_monitor.Email.Walk.transient text_beq domain_monitor.Email.Walk.dmarc_host
    domain_monitor.Utils.normalize_domain domain_monitor.Email.Walk.next_domain
    domain_monitor.Email.Tags.select_dmarc_policy_record domain_monitor.Base.keep
    domain_monitor.Email.Tags.has_dmarc_version has_valid_dmarc_policy domain_monitor.Base.lookup
    domain_monitor.Base.insert all domain_monitor.Email.Walk.judge_record
    domain_monitor.Email.Tags.dmarc_psd_value
walk_finds = refl

walk_stops : (fetch_dmarc_policy ascii zone (codes "a.shop.example.com")).err ≡ some servfail_error
unfolding fetch_dmarc_policy domain_monitor.Email.Walk.walk domain_monitor.Email.Walk.judge_answer
    domain_monitor.Email.Walk.transient text_beq domain_monitor.Email.Walk.dmarc_host
    domain_monitor.Utils.normalize_domain domain_monitor.Email.Walk.next_domain
walk_stops = refl

walk_is_short :
    length (fetch_dmarc_policy ascii zone (codes "a.b.c.d.e.f.g.h.i.j.k.example.com")).asked ≡ 8
unfolding fetch_dmarc_policy domain_monitor.Email.Walk.walk domain_monitor.Email.Walk.judge_answer
    domain_monitor.Email.Walk.transient text_beq domain_monitor.Email.Walk.dmarc_host
    domain_monitor.Utils.normalize_domain domain_monitor.Email.Walk.next_domain
    domain_monitor.Email.Tags.select_dmarc_policy_record domain_monitor.Base.keep
    domain_monitor.Email.Tags.has_dmarc_version has_valid_dmarc_policy domain_monitor.Base.lookup
    domain_monitor.Base.insert all domain_monitor.Email.Walk.judge_record
    domain_monitor.Email.Tags.dmarc_psd_value
walk_is_short = refl

fetch_dmarc_policy-safe_example :
    let w = fetch_dmarc_policy ascii zone (codes "a.shop.example.com") in
    (length w.asked ≤ 8)
    × (length w.policies ≤ 1)
    × ((is_empty w.policies || not (is_some w.err)) ≡ true)
    × (all (vouched ascii zone w.asked) w.policies ≡ true)
    × (first_of (failure zone w.asked) w.err ≡ w.err)
fetch_dmarc_policy-safe_example = fetch_dmarc_policy-safe ascii zone (codes "a.shop.example.com")

tags_read :
    parse_semicolon_tags ascii (codes " V = DMARC1 ;; p=none;")
    ≡ some ((codes "v", codes "DMARC1") ∷ (codes "p", codes "none") ∷ [])
unfolding parse_semicolon_tags domain_monitor.Base.lookup domain_monitor.Base.insert text_beq
tags_read = refl

tags_twice : parse_semicolon_tags ascii (codes "p=none; P=reject") ≡ none
unfolding parse_semicolon_tags domain_monitor.Base.lookup domain_monitor.Base.insert text_beq
tags_twice = refl

policy_is_valid : has_valid_dmarc_policy ascii (codes "v=DMARC1; p=reject; psd=x") ≡ false
unfolding has_valid_dmarc_policy domain_monitor.Base.lookup domain_monitor.Base.insert all
policy_is_valid = refl

spf_is_policy :
    (is_spf_policy_record ascii (codes "V=SPF1 -all") ≡ true)
    × (is_spf_policy_record ascii (codes "v=spf10") ≡ false)
unfolding is_spf_policy_record
spf_is_policy = (refl, refl)

-- A decoder that gives the characters back, and keys of 2048 bits.
abbrev formats : KeyFormats
formats = record {
  std_decode = λ t. some t;
  raw_std_decode = λ t. none;
  pkcs1_bits = λ k. none;
  pkix_rsa_bits = λ k. some 2048;
}

dkim_key_runs :
    (has_usable_dkim_key ascii formats (codes "v=DKIM1; k=rsa; p=MIIB") ≡ true)
    × (has_usable_dkim_key ascii formats (codes "k=rsa; v=DKIM1; p=MIIB") ≡ false)
    × (has_usable_dkim_key ascii formats (codes "v=DKIM1; p=") ≡ false)
unfolding has_usable_dkim_key domain_monitor.Base.lookup domain_monitor.Base.insert
    domain_monitor.Base.keep
dkim_key_runs = (refl, refl, refl)

abbrev email : EmailConfig
email = record { provider = codes "acme"; mx_records = []; dkim_selectors = codes "s1" ∷ [] }

abbrev target : DomainConfig
target = record {
  domain = codes "example.com";
  name = [];
  root_zone = [];
  registrar = [];
  nameservers = [];
  email = some email;
  caa = none;
  renewal_price = pos 0;
  allow_expiry = false;
  domain_transfer_locked = false;
  dnssec = false;
  suppress_alerts = false;
}

abbrev providers : Providers
providers = (codes "acme", record { mx_records = codes "acme.net" ∷ []; dkim_selectors = [] }) ∷ []

abbrev snap : EmailSnapshot
snap = record {
  mx_records = codes "mx1.acme.net" ∷ [];
  spf_records = codes "v=spf1 -all" ∷ [];
  dmarc_records = policy ∷ [];
  dkim_results = (codes "s1", true) ∷ [];
  mx_err = none;
  spf_err = none;
  dmarc_err = none;
  dkim_errs = [];
}

evaluate_email_security-ok_iff_example :
    let v = evaluate_email_security ascii target snap providers in
    let sound = sound_email ascii email snap providers in
    (same_status v.status ok ≡ sound)
    × (is_zero v.cond ≡ false)
    × ((v.cond.code == Code.email_verified) ≡ sound)
    × (v.state.status ≡ v.status)
evaluate_email_security-ok_iff_example =
    evaluate_email_security-ok_iff ascii target email snap providers refl
