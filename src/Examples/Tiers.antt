-- ===== src/Examples/Tiers.antt =====
-- Merged registration data and the fallback to WHOIS at concrete values.
use domain_monitor.Base.{
  ◌≡◌, refl, Bool, true, false, not, ◌&&◌, ◌||◌, List, [], ◌∷◌, map, Option, none, some, ◌==◌,
  if◌then◌else◌, is_empty, any, contains, distinct,
}
use domain_monitor.Text.{Text, codes, text_beq, text_eq, ascii, to_lower}
use domain_monitor.Errors.{Error, error_is, rdap_not_found}
use domain_monitor.Types.Code
use domain_monitor.Types.Condition.{Time}
use domain_monitor.Types.Config.{DomainConfig}
use domain_monitor.Types.Float.{pos}
use domain_monitor.Types.Results.{DomainTierData}
use domain_monitor.Lookup.Registration.{day, evaluate_rdap}
use domain_monitor.Lookup.Statuses.{normalize_epp_status, normalize_domain_statuses, specific_forms}
use domain_monitor.Lookup.Statuses.Kept.{names_key, normalize_domain_statuses_lem}
use domain_monitor.Lookup.Tiers.{zero_rdap_snapshot, synthesize_tier_data}
use domain_monitor.Lookup.Tiers.Synthesis.{no_later, synthesize_tier_data-safe}
use domain_monitor.Lookup.Fallback.{Fetched, fetch_rdap_snapshot}
use domain_monitor.Lookup.Fallback.Absent.{says_absent, evaluate_rdap-fallback}

canonical_statuses :
    (normalize_epp_status ascii (codes "client transfer prohibited https://icann.org/epp#x")
      ≡ codes "clientTransferProhibited")
    × (normalize_epp_status ascii (codes "https://icann.org/epp#serverHold") ≡ codes "serverHold")
    × (normalize_epp_status ascii (codes "active (note)") ≡ codes "active")
unfolding normalize_epp_status domain_monitor.Base.keep any
canonical_statuses = (refl, refl, refl)

abbrev statuses : List Text
statuses =
    codes "transferProhibited" ∷ codes "client-transfer-prohibited" ∷ codes "ok" ∷ codes "OK" ∷ []

statuses_kept :
    normalize_domain_statuses ascii statuses ≡ codes "clientTransferProhibited" ∷ codes "ok" ∷ []
unfolding normalize_domain_statuses domain_monitor.Base.keep
    domain_monitor.Lookup.Statuses.collect_statuses normalize_epp_status domain_monitor.Base.insert
    domain_monitor.Lookup.Statuses.is_redundant any specific_forms
statuses_kept = refl

normalize_domain_statuses_lem_example :
    let out = map (to_lower ascii) (normalize_domain_statuses ascii statuses) in
    let given = λ (key : Text). any (names_key ascii key) statuses in
    let k = codes "transferprohibited" in
    (distinct out ≡ true) × (contains out k ≡ (given k && not (any given (specific_forms k))))
normalize_domain_statuses_lem_example =
    normalize_domain_statuses_lem ascii statuses (codes "transferprohibited")

abbrev registry : DomainTierData
registry = record {
  source = codes "rdap";
  server = codes "registry";
  registrar = codes "Acme";
  iana_id = codes "292";
  expiration = codes "B";
  created = [];
  updated = [];
  nameservers = codes "ns1.example.com" ∷ [];
  domain_status = codes "transferProhibited" ∷ [];
  dnssec = false;
}

abbrev registrar : DomainTierData
registrar = record registry {
  expiration = codes "A";
  domain_status = codes "clientTransferProhibited" ∷ [];
  dnssec = true;
}

-- Two dates, two months apart.
abbrev parse_date : Text → Option Time
parse_date text =
    if text_beq text (codes "A")
    then some day
    else if text_beq text (codes "B")
    then some 5184000000000000
    else none

abbrev layout : Time → Text
layout t = []

synthesize_tier_data-safe_example :
    let s = synthesize_tier_data ascii parse_date layout (some registry) (some registrar) in
    let k = codes "clienttransferprohibited" in
    let given = λ (key : Text).
      any (names_key ascii key) registry.domain_status
      || any (names_key ascii key) registrar.domain_status in
    (no_later (parse_date s.expiration) (parse_date registry.expiration) ≡ true)
    × (no_later (parse_date s.expiration) (parse_date registrar.expiration) ≡ true)
    × (s.dnssec ≡ (registry.dnssec || registrar.dnssec))
    × (s.nameservers
        ≡ (if is_empty registry.nameservers then registrar.nameservers else registry.nameservers))
    × (contains (map (to_lower ascii) s.domain_status) k
        ≡ (given k && not (any given (specific_forms k))))
unfolding text_beq
synthesize_tier_data-safe_example =
    synthesize_tier_data-safe ascii parse_date layout registry registrar
      (codes "clienttransferprohibited") refl

earlier_date_kept :
    (synthesize_tier_data ascii parse_date layout (some registry) (some registrar)).expiration
    ≡ codes "A"
unfolding synthesize_tier_data domain_monitor.Lookup.Tiers.merge_tiers
    domain_monitor.Lookup.Tiers.synthesize_tier_expiration text_beq
earlier_date_kept = refl

abbrev target : DomainConfig
target = record {
  domain = codes "example.com";
  name = [];
  root_zone = [];
  registrar = [];
  nameservers = [];
  email = none;
  caa = none;
  renewal_price = pos 0;
  allow_expiry = false;
  domain_transfer_locked = false;
  dnssec = false;
  suppress_alerts = false;
}

abbrev not_found : Error
not_found = record { message = codes "RDAP domain not found (404)"; chain = rdap_not_found ∷ [] }

abbrev unreachable : Error
unreachable = record { message = codes "no route"; chain = [] }

abbrev failed_with : Error → Fetched
failed_with e = record { snapshot = zero_rdap_snapshot; err = some e }

evaluate_rdap-fallback_example :
    let verdict =
      evaluate_rdap ascii parse_date 0 target
        (fetch_rdap_snapshot (failed_with not_found) (failed_with unreachable)) in
    let absent = says_absent (some not_found) || says_absent (some unreachable) in
    (verdict.1.code == Code.domain_not_found ≡ absent)
    × (verdict.1.code == Code.rdap_http_error ≡ not absent)
    × (text_beq
          (fetch_rdap_snapshot (failed_with not_found) (failed_with unreachable)).protocol_used
          (codes "rdap")
        ≡ error_is (some not_found) rdap_not_found)
evaluate_rdap-fallback_example =
    evaluate_rdap-fallback ascii parse_date 0 target (failed_with not_found)
      (failed_with unreachable) not_found unreachable refl refl refl refl
