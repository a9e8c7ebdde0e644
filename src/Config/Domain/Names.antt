-- ===== src/Config/Domain/Names.antt =====
-- What an accepted domain is called, and what it adds to the sets of what was seen.
use domain_monitor.Base.{
  ◌≡◌, refl, ◌∙◌, ap, sym, subst, true, false, [], arith, Option-cases, inl, inr, KeySet, member,
  add,
}
use domain_monitor.Text.{Text, text_eq, Unicode}
use domain_monitor.Types.Config.{DomainConfig}
use domain_monitor.Config.Result.{accept, bind-accepted, accept-injective, Result-cases}
use domain_monitor.Config.Domain.{
  trimmed_metadata, NameRules, valid_name, normalize_domain_name, normalize_nameservers,
  normalize_domain_nameservers, valid_root_zone, normalize_domain_metadata, normalize_mx_records,
  normalize_selectors, normalize_domain_email, normalize_domain_caa, Normalized,
  normalize_domain_config,
}

-- Two configurations of the same domain under the same name.
pub record Same (d e : DomainConfig) : Type 0 where
  pub domain_kept : e.domain ≡ d.domain
  pub name_kept : e.name ≡ d.name

and_then : {a b c : DomainConfig} → Same a b → Same b c → Same a c
and_then f g = record {
  domain_kept = g.domain_kept ∙ f.domain_kept;
  name_kept = g.name_kept ∙ f.name_kept;
}

module _ (u : Unicode) (rules : NameRules) where
  normalize_domain_name-accepted :
      (d : DomainConfig) (seen : KeySet Text) {r : DomainConfig × KeySet Text}
      → normalize_domain_name u rules d seen ≡ accept r
      → (r.0.name ≡ d.name)
        × (member r.0.domain seen ≡ false)
        × (r.1 ≡ add r.0.domain seen)
        × (valid_name u rules r.0.domain ≡ true)
  unfolding normalize_domain_name
  normalize_domain_name-accepted d seen h = ground arith

  normalize_domain_nameservers-Same :
      (d : DomainConfig) {e : DomainConfig}
      → normalize_domain_nameservers u rules d ≡ accept e
      → Same d e
  unfolding normalize_domain_nameservers
  normalize_domain_nameservers-Same d h =
      let (r, e, g) = bind-accepted (normalize_nameservers u rules d.nameservers [] false) _ h in
      ground arith

  valid_root_zone-Same :
      (d : DomainConfig) {e : DomainConfig} → valid_root_zone u rules d ≡ accept e → Same d e
  unfolding valid_root_zone
  valid_root_zone-Same d h = ground arith

  normalize_domain_metadata-accepted :
      (d : DomainConfig) (seen : KeySet Text) {r : DomainConfig × KeySet Text}
      → normalize_domain_metadata u rules d seen ≡ accept r
      → Same d r.0 × (member d.name seen ≡ false) × (r.1 ≡ add d.name seen)
  unfolding normalize_domain_metadata
  normalize_domain_metadata-accepted d seen h =
      elim (Result-cases (valid_root_zone u rules (trimmed_metadata u rules d))) [
        | inl (e, er) ↦
            let same = valid_root_zone-Same (trimmed_metadata u rules d) er in
            ground (arith, er, same.domain_kept, same.name_kept)
        | inr (r, er) ↦ ground (arith, er)
      ]

  normalize_domain_email-Same :
      (d : DomainConfig) {e : DomainConfig} → normalize_domain_email u rules d ≡ accept e → Same d e
  unfolding normalize_domain_email
  normalize_domain_email-Same d h = elim (Option-cases d.email) [
    | inl e ↦ ground (arith, e)
    | inr (email, e) ↦ elim (Result-cases (normalize_mx_records u rules email.mx_records)) [
      | inl (mx, em) ↦ elim (Result-cases (normalize_selectors u rules email.dkim_selectors)) [
        | inl (sel, es) ↦ ground (arith, e, em, es)
        | inr (r, es) ↦ ground (arith, e, em, es)
      ]
      | inr (r, em) ↦ ground (arith, e, em)
    ]
  ]

  normalize_domain_caa-Same : (d : DomainConfig) → Same d (normalize_domain_caa u rules d)
  unfolding normalize_domain_caa
  normalize_domain_caa-Same d = elim (Option-cases d.caa) [
    | inl e ↦ rw e (record { domain_kept = refl; name_kept = refl })
    | inr (c, e) ↦ rw e (record { domain_kept = refl; name_kept = refl })
  ]

  -- An accepted domain has a name of its own, valid and new, under a title that is new, and both
  -- are seen from then on.
  pub record Fresh (seen_domains seen_names : KeySet Text) (n : Normalized) : Type 0 where
    pub new_domain : member n.domain.domain seen_domains ≡ false
    pub new_name : member n.domain.name seen_names ≡ false
    pub domains_grow : n.domains ≡ add n.domain.domain seen_domains
    pub names_grow : n.names ≡ add n.domain.name seen_names
    pub is_valid : valid_name u rules n.domain.domain ≡ true

  pub normalize_domain_config-Fresh :
      (d : DomainConfig) (seen_domains seen_names : KeySet Text) {n : Normalized}
      → normalize_domain_config u rules d seen_domains seen_names ≡ accept n
      → Fresh seen_domains seen_names n
  unfolding normalize_domain_config
  normalize_domain_config-Fresh d seen_domains seen_names h =
      let (named, e1, h1) = bind-accepted (normalize_domain_name u rules d seen_domains) _ h in
      let (served, e2, h2) = bind-accepted (normalize_domain_nameservers u rules named.0) _ h1 in
      let (titled, e3, h3) =
        bind-accepted (normalize_domain_metadata u rules served seen_names) _ h2 in
      let (mailed, e4, h4) = bind-accepted (normalize_domain_email u rules titled.0) _ h3 in
      let a = normalize_domain_name-accepted d seen_domains e1 in
      let b = normalize_domain_nameservers-Same named.0 e2 in
      let c = normalize_domain_metadata-accepted served seen_names e3 in
      let m = normalize_domain_email-Same titled.0 e4 in
      let f = normalize_domain_caa-Same mailed in
      let all : Same named.0 (normalize_domain_caa u rules mailed) =
        and_then b (and_then c.0 (and_then m f)) in
      subst (Fresh seen_domains seen_names) (accept-injective h4) (record {
        new_domain = ap (λ x. member x seen_domains) all.domain_kept ∙ a.1;
        new_name = ap (λ x. member x seen_names) (and_then c.0 (and_then m f)).name_kept ∙ c.1;
        domains_grow = a.2 ∙ ap (λ x. add x seen_domains) (sym all.domain_kept);
        names_grow = c.2 ∙ ap (λ x. add x seen_names) (sym (and_then c.0 (and_then m f)).name_kept);
        is_valid = ap (valid_name u rules) all.domain_kept ∙ a.3;
      })
