-- ===== src/Config/Domain.antt =====
-- One domain of the configuration: normalizeDomainConfig and what it calls in
-- src/internal/monitor/config.go, with canonicalCAAIssueValue of dns.go. The expression
-- ReValidDomain and idna.ToASCII are parameters.
pub mod Names
use domain_monitor.Base.{
  Bool, true, false, not, ◌&&◌, ◌||◌, List, [], ◌∷◌, ◌++◌, map, Option, none, some, leb, ltb,
  if◌then◌else◌, is_empty, keep, KeySet, member, add,
}
use domain_monitor.Text.{
  Text, codes, text_beq, text_eq, Unicode, to_lower, trim_space, has_suffix, cut, byte_len,
}
use domain_monitor.Utils.{normalize_domain_to_ascii_text}
use domain_monitor.Types.Float.{is_negative}
use domain_monitor.Types.Config.{
  NameserverConfig, EmailConfig, CaaConfig, DomainConfig, is_delegated_zone,
}
use domain_monitor.Config.Result.{
  Result, accept, refuse, ◌>>=◌, unless, domain_empty, invalid_monitored_domain, duplicate_domain,
  empty_nameserver, invalid_nameserver, duplicate_nameserver, needs_answering_nameserver,
  domain_missing_name, duplicate_domain_name, negative_renewal_price, invalid_root_zone,
  root_zone_is_not_a_parent, provider_and_mx_exclusive, invalid_mx, invalid_dkim_selector,
}

-- idna.ToASCII, with `none` for an error, and ReValidDomain.MatchString.
pub record NameRules : Type 0 where
  pub to_ascii : Text → Option Text
  pub matches : Text → Bool

-- The domain, with the sets of domains and of names seen.
pub record Normalized : Type 0 where
  pub domain : DomainConfig
  pub domains : KeySet Text
  pub names : KeySet Text

module _ (u : Unicode) (rules : NameRules) where
  unfoldable pub ascii_name : Text → Text
  ascii_name name = normalize_domain_to_ascii_text u rules.to_ascii name

  unfoldable pub valid_name : Text → Bool
  valid_name name = rules.matches name && leb (byte_len name) 253

  unfoldable pub normalize_domain_name :
      DomainConfig → KeySet Text → Result (DomainConfig × KeySet Text)
  normalize_domain_name d seen =
      let name = ascii_name d.domain in
      unless (not (is_empty name)) domain_empty (
        unless (valid_name name) invalid_monitored_domain (
          unless (not (member name seen)) duplicate_domain
            (accept (record d { domain = name }, add name seen))))

  -- The loop over the nameservers; the flag says whether one that answers was met.
  unfoldable pub normalize_nameservers :
      List NameserverConfig → KeySet Text → Bool → Result (List NameserverConfig × Bool)
  normalize_nameservers [] seen answering = accept ([], answering)
  normalize_nameservers (n ∷ ns) seen answering =
      let name = ascii_name n.hostname in
      unless (not (is_empty name)) empty_nameserver (
        unless (valid_name name) invalid_nameserver (
          unless (not (member name seen)) duplicate_nameserver (
            normalize_nameservers ns (add name seen) (answering || not n.hidden) >>= λ r.
            accept (record n { hostname = name } ∷ r.0, r.1))))

  unfoldable pub normalize_domain_nameservers : DomainConfig → Result DomainConfig
  unfolding normalize_nameservers
  normalize_domain_nameservers d = normalize_nameservers d.nameservers [] false >>= λ r.
      unless (is_empty d.nameservers || r.1) needs_answering_nameserver
        (accept (record d { nameservers = r.0 }))

  unfoldable pub valid_root_zone : DomainConfig → Result DomainConfig
  unfolding is_delegated_zone has_suffix
  valid_root_zone d =
      if is_delegated_zone d
      then unless (valid_name d.root_zone) invalid_root_zone (
          unless (has_suffix d.domain (codes "." ++ d.root_zone)) root_zone_is_not_a_parent
            (accept d))
      else accept d

  abbrev pub trimmed_metadata : DomainConfig → DomainConfig
  trimmed_metadata d = record d {
    registrar = trim_space d.registrar;
    root_zone = ascii_name d.root_zone;
  }

  unfoldable pub normalize_domain_metadata :
      DomainConfig → KeySet Text → Result (DomainConfig × KeySet Text)
  unfolding valid_root_zone trim_space
  normalize_domain_metadata d seen = unless (not (is_empty d.name)) domain_missing_name (
      unless (not (member d.name seen)) duplicate_domain_name (
        unless (not (is_negative d.renewal_price)) negative_renewal_price
          (valid_root_zone (trimmed_metadata d) >>= λ e. accept (e, add d.name seen))))

  -- The text of a null MX record stays as it is.
  unfoldable pub clean_mx : Text → Text
  unfolding trim_space text_beq
  clean_mx raw =
      if text_beq (trim_space raw) (codes ".") then codes "." else ascii_name (trim_space raw)

  unfoldable pub normalize_mx_records : List Text → Result (List Text)
  unfolding clean_mx
  normalize_mx_records [] = accept []
  normalize_mx_records (raw ∷ rest) =
      unless (text_beq (clean_mx raw) (codes ".") || valid_name (clean_mx raw)) invalid_mx
        (normalize_mx_records rest >>= λ r. accept (clean_mx raw ∷ r))

  unfoldable pub normalize_selectors : List Text → Result (List Text)
  unfolding to_lower trim_space
  normalize_selectors [] = accept []
  normalize_selectors (raw ∷ rest) =
      let selector = to_lower u (trim_space raw) in
      unless (rules.matches (selector ++ codes ".example") && leb (byte_len selector) 200)
        invalid_dkim_selector (normalize_selectors rest >>= λ r. accept (selector ∷ r))

  unfoldable pub normalize_domain_email : DomainConfig → Result DomainConfig
  unfolding normalize_mx_records normalize_selectors to_lower trim_space
  normalize_domain_email d = elim d.email [
    | none ↦ accept d
    | some email ↦
        unless (is_empty email.provider || is_empty email.mx_records) provider_and_mx_exclusive (
          normalize_mx_records email.mx_records >>= λ mx.
          normalize_selectors email.dkim_selectors >>= λ selectors. accept (record d {
            email = some (record {
              provider = to_lower u (trim_space email.provider);
              mx_records = mx;
              dkim_selectors = selectors;
            });
          }))
  ]

  unfoldable pub canonical_caa_issue_value : Text → Text
  unfolding cut trim_space
  canonical_caa_issue_value value =
      let (issuer, parameters) = cut b';' (trim_space value) in
      let name = ascii_name (trim_space issuer) in
      elim parameters [ none ↦ name | some rest ↦ name ++ (codes ";" ++ rest) ]

  -- What remains of a list of issuers; an empty one denies all.
  unfoldable pub normalize_caa_list : List Text → List Text
  unfolding canonical_caa_issue_value text_beq
  normalize_caa_list list =
      keep
        (λ v. not (is_empty v) && not (text_beq v (codes ";")) && not (text_beq v (codes "none")))
        (map canonical_caa_issue_value list)

  abbrev map_some : (List Text → List Text) → Option (List Text) → Option (List Text)
  map_some f none = none
  map_some f (some x) = some (f x)

  unfoldable pub normalize_domain_caa : DomainConfig → DomainConfig
  unfolding normalize_caa_list
  normalize_domain_caa d = elim d.caa [
    | none ↦ d
    | some caa ↦ record d {
      caa = some (record {
        issue = map_some normalize_caa_list caa.issue;
        issue_wild = map_some normalize_caa_list caa.issue_wild;
        issue_mail = map_some normalize_caa_list caa.issue_mail;
      });
    }
  ]

  unfoldable pub normalize_domain_config :
      DomainConfig → KeySet Text → KeySet Text → Result Normalized
  normalize_domain_config d seen_domains seen_names =
      normalize_domain_name d seen_domains >>= λ named.
      normalize_domain_nameservers named.0 >>= λ served.
      normalize_domain_metadata served seen_names >>= λ titled.
      normalize_domain_email titled.0 >>= λ mailed.
      accept (record { domain = normalize_domain_caa mailed; domains = named.1; names = titled.1 })
