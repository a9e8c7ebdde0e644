-- ===== src/Lookup/Fallback/Absent.antt =====
-- When a domain counts as absent, after both sources.
use domain_monitor.Base.{
  ◌≡◌, refl, Bool, true, false, not, ◌||◌, some, Option, arith, ◌==◌, is_empty, any, any-append,
  Bool-cases, inl, inr,
}
use domain_monitor.Text.{Text, codes, text_beq, Unicode}
use domain_monitor.Errors.{
  Sentinel, sentinel_number, Error, MaybeError, error_is, domain_not_found, rdap_not_found,
}
use domain_monitor.Types.Code
use domain_monitor.Types.Condition.{Time}
use domain_monitor.Types.Config.{DomainConfig}
use domain_monitor.Lookup.Registration.{classify_rdap_error, evaluate_rdap}
use domain_monitor.Lookup.Fallback.{
  Fetched, domain_not_found_error, both_failed, fallback_whois_snapshot, fetch_rdap_snapshot,
}

error_is-both_failed :
    (a b : Error) (s : Sentinel)
    → error_is (some (both_failed a b)) s ≡ (error_is (some a) s || error_is (some b) s)
unfolding error_is both_failed
error_is-both_failed a b s =
    any-append (λ t. sentinel_number t == sentinel_number s) a.chain b.chain

-- An error says that the domain is not registered.
abbrev pub says_absent : MaybeError → Bool
says_absent e = error_is e domain_not_found || error_is e rdap_not_found

absent_known : says_absent (some domain_not_found_error) ≡ true
unfolding error_is any
absent_known = refl

-- The error of the snapshot, where both fail.
fetched_error :
    (rdap whois : Fetched) (e f : Error)
    → rdap.err ≡ some e
    → whois.err ≡ some f
    → (g : Error) × ((fetch_rdap_snapshot rdap whois).err ≡ some g)
      × (says_absent (some g) ≡ (says_absent (some e) || says_absent (some f)))
unfolding fetch_rdap_snapshot fallback_whois_snapshot
fetched_error rdap whois e f he hf = elim (Bool-cases (error_is (some e) rdap_not_found)) [
  | inl a ↦ (e, ground (arith, a, he), ground (arith, a))
  | inr a ↦ elim (Bool-cases (error_is (some f) domain_not_found)) [
    | inl b ↦
        (domain_not_found_error, ground (arith, a, b, he, hf), ground (arith, absent_known, b))
    | inr b ↦ (
      both_failed e f,
      ground (arith, a, b, he, hf),
      ground (
        arith,
        error_is-both_failed e f domain_not_found,
        error_is-both_failed e f rdap_not_found,
      ),
    )
  ]
]

classify_rdap_error-code :
    (u : Unicode) (g : Error)
    → let c = (classify_rdap_error u g false).1 in
      (c.code == Code.domain_not_found ≡ says_absent (some g))
      × (c.code == Code.rdap_http_error ≡ not (says_absent (some g)))
unfolding classify_rdap_error
classify_rdap_error-code u g = (ground arith, ground arith)

rdap_named : text_beq (codes "rdap") (codes "rdap") ≡ true
unfolding text_beq
rdap_named = refl

whois_named : text_beq (codes "whois") (codes "rdap") ≡ false
unfolding text_beq
whois_named = refl

failure_named : text_beq (codes "whois_failed") (codes "rdap") ≡ false
unfolding text_beq
failure_named = refl

-- The evidence names RDAP where that knows that the domain is absent.
source_named :
    (rdap whois : Fetched) (e f : Error)
    → rdap.err ≡ some e
    → whois.err ≡ some f
    → text_beq (fetch_rdap_snapshot rdap whois).protocol_used (codes "rdap")
      ≡ error_is (some e) rdap_not_found
unfolding fetch_rdap_snapshot fallback_whois_snapshot
source_named rdap whois e f he hf = elim (Bool-cases (error_is (some e) rdap_not_found)) [
  | inl a ↦ rw (he, a) rdap_named
  | inr a ↦ elim (Bool-cases (error_is (some f) domain_not_found)) [
    | inl b ↦ rw (he, a, hf, b) whois_named
    | inr b ↦ rw (he, a, hf, b) failure_named
  ]
]

-- Where RDAP fails with one error and WHOIS with another, a domain that must not expire is reported
-- as not found exactly when one of the errors says so, and otherwise as an error of the lookup; and
-- the evidence names RDAP alone as its protocol exactly when the RDAP error is ErrRDAPNotFound.
pub evaluate_rdap-fallback :
    (u : Unicode) (parse : Text → Option Time) (now : Time) (target : DomainConfig)
    (rdap whois : Fetched) (e f : Error)
    → rdap.err ≡ some e
    → whois.err ≡ some f
    → is_empty target.domain ≡ false
    → target.allow_expiry ≡ false
    → let verdict = evaluate_rdap u parse now target (fetch_rdap_snapshot rdap whois) in
      let absent = says_absent (some e) || says_absent (some f) in
      (verdict.1.code == Code.domain_not_found ≡ absent)
      × (verdict.1.code == Code.rdap_http_error ≡ not absent)
      × (text_beq (fetch_rdap_snapshot rdap whois).protocol_used (codes "rdap")
          ≡ error_is (some e) rdap_not_found)
unfolding evaluate_rdap
evaluate_rdap-fallback u parse now target rdap whois e f he hf hd ha =
    let (g, eg, same) = fetched_error rdap whois e f he hf in
    let (absent, other) = classify_rdap_error-code u g in
    rw (hd, eg, ha, ← same) (absent, other, source_named rdap whois e f he hf)
