-- ===== src/Cycle/Expired/Dropped.antt =====
-- What a cycle publishes of domains that have expired.
use domain_monitor.Base.{
  ◌≡◌, inl, inr, refl, ap, Bool, true, false, ◌&&◌, ◌||◌, List, [], ◌∷◌, arith, Option, none, some,
  Map, if◌then◌else◌, is_empty, any, Bool-cases, KeySet, member, add, delete, lookup, member-add,
  lookup-delete,
}
use domain_monitor.Text.{Text, text_beq, text_eq, Unicode}
use domain_monitor.Utils.{normalize_domain}
use domain_monitor.Types.Config.{DomainConfig, DnsTask, AppConfig}
use domain_monitor.Types.Results.{CheckState, DnsState}
use domain_monitor.Cycle.Expired.{
  rdap_of, is_confirmed_expired, drop_expired, drop_expired_records, delete_optional,
  suppress_expired_domain_checks, configured_domain_owner,
}

-- A read of a nil map finds nothing.
unfoldable pub lookup_optional {ℓ} : {V : Type ℓ} → Text → Option (Map Text V) → Option V
lookup_optional k none = none
lookup_optional k (some m) = lookup k m

lookup_optional-delete_optional {ℓ} :
    {V : Type ℓ} (k j : Text) (m : Option (Map Text V))
    → lookup_optional j (delete_optional k m) ≡ (if text_beq k j then none else lookup_optional j m)
unfolding lookup_optional delete_optional
lookup_optional-delete_optional k j none = ground arith
lookup_optional-delete_optional k j (some m) = lookup-delete k j m

-- Whether a configured domain of the name has expired by the evidence of this cycle.
unfoldable pub has_gone : CheckState → List DomainConfig → Text → Bool
has_gone state domains x = any (λ d. text_beq d.domain x && is_confirmed_expired state d) domains

module _ (u : Unicode) where
  drop_expired-lookup :
      (domains : List DomainConfig) (expired : KeySet Text) (state : CheckState) (x : Text)
      → let dropped = (drop_expired u domains expired state).1 in
        let gone = has_gone state domains x in
        (lookup x dropped.email ≡ (if gone then none else lookup x state.email))
        × (lookup_optional x dropped.dnssec
            ≡ (if gone then none else lookup_optional x state.dnssec))
        × (lookup_optional x dropped.ns_health
            ≡ (if gone then none else lookup_optional x state.ns_health))
        × (lookup_optional x dropped.caa ≡ (if gone then none else lookup_optional x state.caa))
        × (dropped.rdap ≡ state.rdap)
        × (dropped.dns ≡ state.dns)
  unfolding drop_expired has_gone any is_confirmed_expired rdap_of
  drop_expired-lookup [] expired state x = (refl, refl, refl, refl, refl, refl)
  drop_expired-lookup (d ∷ domains) expired state x =
      let forgets = record state {
        email = delete d.domain state.email;
        dnssec = delete_optional d.domain state.dnssec;
        ns_health = delete_optional d.domain state.ns_health;
        caa = delete_optional d.domain state.caa;
      } in
      elim (Bool-cases (is_confirmed_expired state d)) [
        | inl e ↦
            let ih =
              drop_expired-lookup domains (add (normalize_domain u d.domain) expired) forgets x in
            rw (e, drop_expired)
              (
                ground (arith, e, ih.0, lookup-delete d.domain x state.email),
                ground (arith, e, ih.1, lookup_optional-delete_optional d.domain x state.dnssec),
                ground (arith, e, ih.2, lookup_optional-delete_optional d.domain x state.ns_health),
                ground (arith, e, ih.3, lookup_optional-delete_optional d.domain x state.caa),
                ih.4,
                ih.5,
              )
        | inr e ↦
            let ih = drop_expired-lookup domains expired state x in
            rw (e, drop_expired)
              (
                ground (arith, e, ih.0),
                ground (arith, e, ih.1),
                ground (arith, e, ih.2),
                ground (arith, e, ih.3),
                ih.4,
                ih.5,
              )
      ]

  -- Whether a host's owner has expired by the evidence of this cycle.
  unfoldable pub owner_has_gone : CheckState → List DomainConfig → Text → Bool
  owner_has_gone state domains hostname =
      any
        (λ d.
          is_confirmed_expired state d
          && text_beq (normalize_domain u d.domain) (configured_domain_owner u hostname domains))
        domains

  drop_expired-member :
      (domains : List DomainConfig) (expired : KeySet Text) (state : CheckState) (x : Text)
      → member x (drop_expired u domains expired state).0 ≡ (
          member x expired
          || any
              (λ d. is_confirmed_expired state d && text_beq (normalize_domain u d.domain) x)
              domains)
  unfolding drop_expired any is_confirmed_expired rdap_of
  drop_expired-member [] expired state x = ground arith
  drop_expired-member (d ∷ domains) expired state x =
      let name = normalize_domain u d.domain in
      let forgets = record state {
        email = delete d.domain state.email;
        dnssec = delete_optional d.domain state.dnssec;
        ns_health = delete_optional d.domain state.ns_health;
        caa = delete_optional d.domain state.caa;
      } in
      elim (Bool-cases (is_confirmed_expired state d)) [
        | inl e ↦
            rw (e, drop_expired)
              (ground (
                arith,
                e,
                drop_expired-member domains (add name expired) forgets x,
                member-add name x expired,
              ))
        | inr e ↦
            rw (e, drop_expired) (ground (arith, e, drop_expired-member domains expired state x))
      ]

  drop_expired_records-lookup :
      (domains : List DomainConfig) (expired : KeySet Text) (records : List DnsTask)
      (dns : Map Text DnsState) (x : Text)
      → lookup x (drop_expired_records u domains expired records dns) ≡ (
          if any
            (λ r.
              text_beq r.name x && member (configured_domain_owner u r.hostname domains) expired)
            records
          then none
          else lookup x dns)
  unfolding drop_expired_records any
  drop_expired_records-lookup domains expired [] dns x = refl
  drop_expired_records-lookup domains expired (r ∷ records) dns x = ground (
    arith,
    drop_expired_records-lookup domains expired records dns x,
    drop_expired_records-lookup domains expired records (delete r.name dns) x,
    lookup-delete r.name x dns,
  )

  -- Whether a record of the name belongs to such a domain.
  unfoldable pub record_has_gone : CheckState → AppConfig → Text → Bool
  unfolding owner_has_gone
  record_has_gone state cfg x =
      any (λ r. text_beq r.name x && owner_has_gone state cfg.domains r.hostname) cfg.dns_records

  any-member :
      (cfg : AppConfig) (state : CheckState) (records : List DnsTask) (x : Text)
      → any
          (λ r.
            text_beq r.name x
            && member
                (configured_domain_owner u r.hostname cfg.domains)
                (drop_expired u cfg.domains [] state).0)
          records
        ≡ any (λ r. text_beq r.name x && owner_has_gone state cfg.domains r.hostname) records
  unfolding any owner_has_gone lookup
  any-member cfg state [] x = refl
  any-member cfg state (r ∷ records) x = ground (
    arith,
    any-member cfg state records x,
    drop_expired-member cfg.domains [] state (configured_domain_owner u r.hostname cfg.domains),
  )

  no_record :
      (domains : List DomainConfig) (expired : KeySet Text) (records : List DnsTask) (x : Text)
      → is_empty expired ≡ true
      → any
          (λ r. text_beq r.name x && member (configured_domain_owner u r.hostname domains) expired)
          records
        ≡ false
  unfolding any lookup
  no_record domains (e ∷ expired) records x h = cc h
  no_record domains [] [] x h = refl
  no_record domains [] (r ∷ records) x h = ground (arith, no_record domains [] records x refl)

  -- On every state: the results that a cycle keeps of email, DNSSEC, nameserver health and CAA
  -- checks are those of the names under which no domain has expired by the evidence of the cycle,
  -- and the DNS results it keeps are those of the records whose owner has not; all of these stay as
  -- they were, and the registration results all stay.
  pub suppress_expired_domain_checks-lookup :
      (cfg : AppConfig) (state : CheckState) (x : Text)
      → let after = suppress_expired_domain_checks u cfg state in
        let gone = has_gone state cfg.domains x in
        (lookup x after.email ≡ (if gone then none else lookup x state.email))
        × (lookup_optional x after.dnssec ≡ (if gone then none else lookup_optional x state.dnssec))
        × (lookup_optional x after.ns_health
            ≡ (if gone then none else lookup_optional x state.ns_health))
        × (lookup_optional x after.caa ≡ (if gone then none else lookup_optional x state.caa))
        × (lookup x after.dns ≡ (if record_has_gone state cfg x then none else lookup x state.dns))
        × (after.rdap ≡ state.rdap)
  unfolding suppress_expired_domain_checks record_has_gone
  suppress_expired_domain_checks-lookup cfg state x =
      let kept = drop_expired-lookup cfg.domains [] state x in
      let expired = (drop_expired u cfg.domains [] state).0 in
      let dropped = (drop_expired u cfg.domains [] state).1 in
      elim (Bool-cases (is_empty expired)) [
        | inl e ↦
            let none_gone = no_record cfg.domains expired cfg.dns_records x e in
            rw e (
              kept.0,
              kept.1,
              kept.2,
              kept.3,
              ground (
                arith,
                ap (λ m. lookup x m) kept.5,
                none_gone,
                any-member cfg state cfg.dns_records x,
              ),
              kept.4,
            )
        | inr e ↦ rw e (
          kept.0,
          kept.1,
          kept.2,
          kept.3,
          ground (
            arith,
            ap (λ m. lookup x m) kept.5,
            drop_expired_records-lookup cfg.domains expired cfg.dns_records dropped.dns x,
            any-member cfg state cfg.dns_records x,
          ),
          kept.4,
        )
      ]
