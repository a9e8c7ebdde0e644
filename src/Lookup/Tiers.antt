-- ===== src/Lookup/Tiers.antt =====
-- The registry's and the registrar's data as one snapshot: synthesizeTierData,
-- synthesizeTierExpiration and synthesizeTierNameservers in src/internal/monitor/lookup.go. The
-- layout of a date is a parameter, as its parsing is.
pub mod Synthesis
use domain_monitor.Base.{
  ℕ, ◌+◌, ◌-◌, ◌*◌, Bool, true, false, not, ◌&&◌, ◌||◌, List, [], ◌∷◌, ◌++◌, map, Option, none,
  some, ltb, ◌==◌, if◌then◌else◌, is_empty, is_some, get_or_else, all, length, KeySet, member, add,
}
use domain_monitor.Text.{Text, codes, text_eq, Unicode, join}
use domain_monitor.Errors.{Error}
use domain_monitor.Types.Condition.{Time}
use domain_monitor.Types.Results.{DomainTierData, RdapSnapshot}
use domain_monitor.Lookup.Date.{parse_flexible_date}
use domain_monitor.Lookup.Registration.{day}
use domain_monitor.Lookup.Statuses.{normalize_domain_statuses}

abbrev pub auto_renew_grace_period_threshold_days : ℕ
auto_renew_grace_period_threshold_days = 45

-- `RDAPSnapshot{}`
abbrev pub zero_rdap_snapshot : RdapSnapshot
zero_rdap_snapshot = record {
  registrar = [];
  registrar_iana_id = [];
  expiration = [];
  nameservers = [];
  domain_status = [];
  dnssec = false;
  source = [];
  protocol_used = [];
  query_duration_ms = 0;
  registry_tier = none;
  registrar_tier = none;
  discrepancies = [];
  err = none;
}

-- A field of a tier, empty where there is no tier.
abbrev pub tier_text : (DomainTierData → Text) → Option DomainTierData → Text
tier_text field none = []
tier_text field (some t) = field t

abbrev pub tier_list : (DomainTierData → List Text) → Option DomainTierData → List Text
tier_list field none = []
tier_list field (some t) = field t

-- The first text, if it is not empty, and else the second.
abbrev pub preferred : Text → Text → Text
preferred a b = if not (is_empty a) then a else b

unfoldable pub apart : Time → Time → ℕ
apart a b = a - b + (b - a)

abbrev pub append_if : Text → List Text → List Text
append_if text texts = if not (is_empty text) then texts ++ text ∷ [] else texts

module _ (parse : Text → Option Time) (layout : Time → Text) where
  -- The date and the discrepancy, where both tiers have a date.
  unfoldable pub merge_dates : Text → Text → Text × Text
  unfolding apart
  merge_dates registry registrar = elim (parse registry) [
    | none ↦ (if is_some (parse registrar) then registrar else registry, [])
    | some reg ↦ elim (parse registrar) [
      | none ↦ (registry, [])
      | some rar ↦ (
        if ltb rar reg then registrar else registry,
        if ltb (auto_renew_grace_period_threshold_days * day) (apart reg rar)
            then codes "Auto-Renew Grace Period discrepancy: Registry expiration ("
              ++ (layout reg ++ (codes ") vs Registrar expiration (" ++ (layout rar ++ codes ")")))
            else [],
      )
    ]
  ]

  unfoldable pub synthesize_tier_expiration :
      Option DomainTierData → Option DomainTierData → Text × Text
  unfolding merge_dates
  synthesize_tier_expiration registry registrar =
      let a = tier_text (λ t. t.expiration) registry in
      let b = tier_text (λ t. t.expiration) registrar in
      if not (is_empty a) && not (is_empty b) then merge_dates a b else (preferred a b, [])

-- A set of names.
unfoldable pub name_set : List Text → KeySet Text → KeySet Text
name_set [] names = names
name_set (n ∷ ns) names = name_set ns (add n names)

abbrev pub keys_in : KeySet Text → KeySet Text → Bool
keys_in a b = all (λ e. member e.0 b) a

unfoldable pub names_differ : List Text → List Text → Bool
unfolding name_set all
names_differ registry registrar =
    let reg = name_set registry [] in
    let rar = name_set registrar [] in
    if not (length registry == length registrar) || not (length reg == length rar)
    then true
    else not (keys_in reg rar)

unfoldable pub synthesize_tier_nameservers :
    Option DomainTierData → Option DomainTierData → List Text × Text
unfolding names_differ
synthesize_tier_nameservers registry registrar =
    let a = tier_list (λ t. t.nameservers) registry in
    let b = tier_list (λ t. t.nameservers) registrar in
    if not (is_empty a) && not (is_empty b)
    then (
      a,
      if names_differ a b
          then codes "Nameserver desync: Registry delegation ["
            ++ (join (codes ", ") a
                ++ (codes "] != Registrar configuration [" ++ (join (codes ", ") b ++ codes "]")))
          else [],
    )
    else if not (is_empty a)
    then (a, [])
    else (b, [])

unfoldable pub synthesize_source : Option DomainTierData → Option DomainTierData → Text
synthesize_source none none = []
synthesize_source none (some b) = b.source
synthesize_source (some a) none = a.source
synthesize_source (some a) (some b) = a.source ++ (codes "+" ++ b.source)

abbrev pub is_signed : Option DomainTierData → Bool
is_signed none = false
is_signed (some t) = t.dnssec

module _ (u : Unicode) (parse : Text → Option Time) (layout : Time → Text) where
  -- Two tiers, at least one of which is there.
  unfoldable pub merge_tiers : Option DomainTierData → Option DomainTierData → RdapSnapshot
  merge_tiers registry registrar =
      let (expiration, date_note) = synthesize_tier_expiration parse layout registry registrar in
      let (nameservers, ns_note) = synthesize_tier_nameservers registry registrar in
      record {
        registrar =
            preferred (tier_text (λ t. t.registrar) registrar)
              (tier_text (λ t. t.registrar) registry);
        registrar_iana_id =
            preferred (tier_text (λ t. t.iana_id) registrar) (tier_text (λ t. t.iana_id) registry);
        expiration = expiration;
        nameservers = nameservers;
        domain_status = normalize_domain_statuses u (
            tier_list (λ t. t.domain_status) registry
            ++ tier_list (λ t. t.domain_status) registrar);
        dnssec = is_signed registry || is_signed registrar;
        source = synthesize_source registry registrar;
        protocol_used = [];
        query_duration_ms = 0;
        registry_tier = registry;
        registrar_tier = registrar;
        discrepancies = append_if ns_note (append_if date_note []);
        err = none;
      }

  -- The discrepancies that the code returns beside the snapshot are those in it, but for no tiers.
  unfoldable pub synthesize_tier_data : Option DomainTierData → Option DomainTierData → RdapSnapshot
  synthesize_tier_data registry registrar =
      if not (is_some registry) && not (is_some registrar)
      then record zero_rdap_snapshot {
        err =
            some (record {
              message = codes "no registry or registrar tier data available";
              chain = [];
            });
      }
      else merge_tiers registry registrar
