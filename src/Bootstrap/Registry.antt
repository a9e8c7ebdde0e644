-- ===== src/Bootstrap/Registry.antt =====
-- The servers of each suffix, from the registry file of IANA and the seeds: bootstrapServices and
-- fetch in src/internal/monitor/bootstrap.go. What the request gives is an argument.
pub mod Sound
use domain_monitor.Base.{
  ◌⊎◌, inl, inr, Bool, ◌||◌, List, [], ◌∷◌, none, some, if◌then◌else◌, is_empty, keep, Map, lookup,
  insert,
}
use domain_monitor.Text.{Text, codes, text_eq, has_prefix, Unicode}
use domain_monitor.Errors.{Error, empty_bootstrap_registry}
use domain_monitor.Utils.{normalize_domain, deduplicate_non_empty_strings}
use domain_monitor.Bootstrap.Tables.{stealth_seeds}

-- Bootstrap.services
abbrev pub Services : Type 0
Services = Map Text (List Text)

-- dnsRegistry.Services
abbrev pub Registry : Type 0
Registry = List (List (List Text))

unfoldable pub is_http : Text → Bool
unfolding has_prefix
is_http url = has_prefix url (codes "https://") || has_prefix url (codes "http://")

module _ (u : Unicode) where
  unfoldable pub add_tlds : List Text → List Text → Services → Services
  unfolding normalize_domain
  add_tlds [] urls services = services
  add_tlds (tld ∷ tlds) urls services =
      let clean = normalize_domain u tld in
      add_tlds tlds urls (if is_empty clean then services else insert clean urls services)

  -- One entry: its suffixes, and their servers.
  unfoldable pub add_entry : List (List Text) → Services → Services
  unfolding add_tlds is_http deduplicate_non_empty_strings
  add_entry [] services = services
  add_entry (tlds ∷ []) services = services
  add_entry (tlds ∷ urls ∷ rest) services =
      let valid_urls = keep is_http (deduplicate_non_empty_strings urls) in
      if is_empty valid_urls then services else add_tlds tlds valid_urls services

  unfoldable pub add_entries : Registry → Services → Services
  unfolding add_entry
  add_entries [] services = services
  add_entries (entry ∷ registry) services = add_entries registry (add_entry entry services)

  unfoldable pub bootstrap_services : Registry → Services
  unfolding add_entries
  bootstrap_services registry = add_entries registry []

  -- A seed stands in where the registry has no entry.
  unfoldable pub with_seeds : List (Text × List Text) → Services → Services
  unfolding normalize_domain
  with_seeds [] services = services
  with_seeds ((tld, urls) ∷ seeds) services =
      let clean = normalize_domain u tld in
      with_seeds seeds
        (elim (lookup clean services) [ some known ↦ services | none ↦ insert clean urls services ])

  unfoldable pub empty_registry_error : Error
  empty_registry_error = record {
    message = codes "empty bootstrap registry";
    chain = empty_bootstrap_registry ∷ [];
  }

  -- The services that replace those of the cache, or the error.
  unfoldable pub fetch_services : Registry ⊎ Error → Services ⊎ Error
  unfolding with_seeds bootstrap_services empty_registry_error
  fetch_services (inr e) = inr e
  fetch_services (inl registry) =
      let services = bootstrap_services registry in
      if is_empty services
      then inr empty_registry_error
      else inl (with_seeds stealth_seeds services)
