-- ===== src/Bootstrap/Registry/Sound.antt =====
-- What every table of servers that a fetch gives has in common.
use domain_monitor.Base.{
  ◌≡◌, refl, ◌⊎◌, inl, inr, Bool, true, false, not, ◌&&◌, List, [], ◌∷◌, some, arith, Option-cases,
  Bool-cases, is_empty, keep, all, lookup, insert, lookup-insert,
}
use domain_monitor.Text.{Text, text_eq, Unicode}
use domain_monitor.Errors.{Error}
use domain_monitor.Utils.{normalize_domain, deduplicate_non_empty_strings}
use domain_monitor.Bootstrap.Tables.{stealth_seeds}
use domain_monitor.Bootstrap.Registry.{
  Services, Registry, is_http, add_tlds, add_entry, add_entries, bootstrap_services, with_seeds,
  fetch_services,
}

-- A suffix that is there has a server, and each is reached over HTTP.
unfoldable pub usable : List Text → Bool
unfolding all
usable urls = not (is_empty urls) && all is_http urls

unfoldable pub WellFormed : Services → Type 0
WellFormed services =
    (tld : Text) (urls : List Text) → lookup tld services ≡ some urls → usable urls ≡ true

insert-WellFormed :
    (tld : Text) (urls : List Text) (services : Services)
    → usable urls ≡ true
    → WellFormed services
    → WellFormed (insert tld urls services)
unfolding WellFormed
insert-WellFormed tld urls services good wf other found at =
    ground (arith, lookup-insert tld other urls services, wf other found)

all-keep : (p : Text → Bool) (xs : List Text) → all p (keep p xs) ≡ true
unfolding all keep
all-keep p [] = refl
all-keep p (x ∷ xs) = ground (arith, all-keep p xs)

module _ (u : Unicode) where
  add_tlds-WellFormed :
      (tlds urls : List Text) (services : Services)
      → usable urls ≡ true
      → WellFormed services
      → WellFormed (add_tlds u tlds urls services)
  unfolding add_tlds
  add_tlds-WellFormed [] urls services good wf = wf
  add_tlds-WellFormed (tld ∷ tlds) urls services good wf =
      add_tlds-WellFormed tlds urls _ good (elim (Bool-cases (is_empty (normalize_domain u tld))) [
        | inl e ↦ rw e wf
        | inr e ↦ rw e (insert-WellFormed (normalize_domain u tld) urls services good wf)
      ])

  add_entry-WellFormed :
      (entry : List (List Text)) (services : Services)
      → WellFormed services
      → WellFormed (add_entry u entry services)
  unfolding add_entry usable
  add_entry-WellFormed [] services wf = wf
  add_entry-WellFormed (tlds ∷ []) services wf = wf
  add_entry-WellFormed (tlds ∷ urls ∷ rest) services wf =
      let valid = keep is_http (deduplicate_non_empty_strings urls) in
      elim (Bool-cases (is_empty valid)) [
        | inl e ↦ rw e wf
        | inr e ↦ rw e (
            add_tlds-WellFormed tlds valid services
              (ground (arith, e, all-keep is_http (deduplicate_non_empty_strings urls))) wf)
      ]

  add_entries-WellFormed :
      (registry : Registry) (services : Services)
      → WellFormed services
      → WellFormed (add_entries u registry services)
  unfolding add_entries
  add_entries-WellFormed [] services wf = wf
  add_entries-WellFormed (entry ∷ registry) services wf =
      add_entries-WellFormed registry (add_entry u entry services)
        (add_entry-WellFormed entry services wf)

  with_seeds-WellFormed :
      (seeds : List (Text × List Text)) (services : Services)
      → all (λ seed. usable seed.1) seeds ≡ true
      → WellFormed services
      → WellFormed (with_seeds u seeds services)
  unfolding with_seeds all
  with_seeds-WellFormed [] services good wf = wf
  with_seeds-WellFormed ((tld, urls) ∷ seeds) services good wf =
      let clean = normalize_domain u tld in
      with_seeds-WellFormed seeds _ (ground (arith, good))
        (elim (Option-cases (lookup clean services)) [
          | inl e ↦ rw e (insert-WellFormed clean urls services (ground (arith, good)) wf)
          | inr (known, e) ↦ rw e wf
        ])

  seeds_usable : all (λ (seed : Text × List Text). usable seed.1) stealth_seeds ≡ true
  unfolding all usable stealth_seeds is_http
  seeds_usable = refl

  insert-is_empty :
      (tld : Text) (urls : List Text) (services : Services)
      → is_empty (insert tld urls services) ≡ false
  unfolding insert
  insert-is_empty tld urls [] = refl
  insert-is_empty tld urls ((other, known) ∷ services) = ground arith

  with_seeds-is_empty :
      (seeds : List (Text × List Text)) (services : Services)
      → is_empty services ≡ false
      → is_empty (with_seeds u seeds services) ≡ false
  unfolding with_seeds
  with_seeds-is_empty [] services h = h
  with_seeds-is_empty ((tld, urls) ∷ seeds) services h =
      let clean = normalize_domain u tld in
      with_seeds-is_empty seeds _ (elim (Option-cases (lookup clean services)) [
        | inl e ↦ rw e (insert-is_empty clean urls services)
        | inr (known, e) ↦ rw e h
      ])

  bootstrap_services-WellFormed : (registry : Registry) → WellFormed (bootstrap_services u registry)
  unfolding bootstrap_services WellFormed lookup
  bootstrap_services-WellFormed registry =
      add_entries-WellFormed registry [] (λ tld urls h. ground (arith, h))

  -- The services of a fetch are not empty and well formed.
  pub fetch_services-WellFormed :
      (answer : Registry ⊎ Error) (services : Services)
      → fetch_services u answer ≡ inl services
      → (is_empty services ≡ false) × WellFormed services
  unfolding fetch_services
  fetch_services-WellFormed (inr e) services h = ground (arith, h)
  fetch_services-WellFormed (inl registry) services h =
      let found = bootstrap_services u registry in
      elim (Bool-cases (is_empty found)) [
        | inl e ↦ ground (arith, h, e)
        | inr e ↦
            let same : with_seeds u stealth_seeds found ≡ services = ground (arith, h, e) in
            rw (← same) (
              with_seeds-is_empty stealth_seeds found e,
              with_seeds-WellFormed stealth_seeds found seeds_usable
                  (bootstrap_services-WellFormed registry),
            )
      ]
