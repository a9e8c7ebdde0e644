-- ===== src/Bootstrap/Cache/Served.antt =====
-- The servers that a call returns.
use domain_monitor.Base.{
  ℕ, ◌-◌, ◌≤◌, ◌<◌, ◌≡◌, refl, ◌⊎◌, inl, inr, Bool, true, ◌&&◌, List, Option, none, some, arith,
  leb, Option-cases, Bool-cases, get_elem?, lookup,
}
use domain_monitor.Text.{Text, text_eq, Unicode}
use domain_monitor.Errors.{Error}
use domain_monitor.Utils.{normalize_domain_to_ascii_text}
use domain_monitor.Bootstrap.Suffix.{suffixes, longest_match, longest_match_lem}
use domain_monitor.Bootstrap.Registry.{Services, Registry, fetch_services}
use domain_monitor.Bootstrap.Registry.Sound.{usable, WellFormed, fetch_services-WellFormed}
use domain_monitor.Bootstrap.Cache.{
  Cache, Clock, Ensured, bootstrap_max_age, is_fresh, serves, cached_registry_age, servers_of,
  refresh, ensure, servers_for,
}

-- No reading of the clock is earlier than the first.
unfoldable pub NotEarlier : Clock → Type 0
NotEarlier clock =
    (clock.first ≤ clock.second)
    × (clock.first ≤ clock.third)
    × (clock.first ≤ clock.stored)
    × (clock.first ≤ clock.fourth)

-- What the tables of a call have in common: they are well formed, and where no error is returned, they
-- were at most 72 hours old when the call began.
unfoldable Good : Clock → Ensured → Type 0
Good clock r =
    WellFormed r.cache.services
    × (r.err ≡ none → leb (clock.first - r.cache.fetched_at) bootstrap_max_age ≡ true)

fresh_age :
    (cache : Cache) (now first : ℕ)
    → is_fresh cache now ≡ true
    → first ≤ now
    → leb (first - cache.fetched_at) bootstrap_max_age ≡ true
unfolding is_fresh
fresh_age cache now first h le = ground (arith, h, le)

serves_age :
    (cache : Cache) (now first : ℕ)
    → serves cache now ≡ true
    → first ≤ now
    → leb (first - cache.fetched_at) bootstrap_max_age ≡ true
unfolding serves cached_registry_age
serves_age cache now first h le = ground (arith, h, le)

fetched_cases :
    (r : Services ⊎ Error)
    → ((services : Services) × (r ≡ inl services)) ⊎ ((e : Error) × (r ≡ inr e))
fetched_cases (inl services) = inl (services, refl)
fetched_cases (inr e) = inr (e, refl)

-- `urls` are the servers of a name: those of its longest suffix that has an entry with servers.
unfoldable pub ServersOf : Services → Text → List Text → Type 0
ServersOf services name urls =
    (i : ℕ) × (suffix : Text) × (get_elem? (suffixes name) i ≡ some suffix)
    × (servers_of services suffix ≡ some urls)
    × ((j : ℕ) (longer : Text)
        → j < i
        → get_elem? (suffixes name) j ≡ some longer
        → servers_of services longer ≡ none)

servers_of-usable :
    (services : Services) (suffix : Text) (urls : List Text)
    → WellFormed services
    → servers_of services suffix ≡ some urls
    → usable urls ≡ true
unfolding servers_of WellFormed
servers_of-usable services suffix urls wf h = elim (Option-cases (lookup suffix services)) [
  | inl e ↦ ground (arith, h, e)
  | inr (known, e) ↦ ground (arith, h, e, wf suffix known e)
]

module _ (u : Unicode) where
  refresh-Good :
      (held : Cache) (clock : Clock) (answer : Registry ⊎ Error)
      → WellFormed held.services
      → NotEarlier clock
      → Good clock (refresh u held clock answer)
  unfolding refresh Good NotEarlier
  refresh-Good held clock answer wf order = elim (Bool-cases (is_fresh held clock.third)) [
    | inl e ↦ rw e (wf, λ _. fresh_age held clock.third clock.first e order.1)
    | inr e ↦ elim (fetched_cases (fetch_services u answer)) [
      | inl (services, f) ↦
          rw (e, f)
            ((fetch_services-WellFormed u answer services f).1, λ _. ground (arith, order.2))
      | inr (err, f) ↦ elim (Bool-cases (serves held clock.fourth)) [
        | inl s ↦ rw (e, f, s) (wf, λ _. serves_age held clock.fourth clock.first s order.3)
        | inr s ↦ rw (e, f, s) (wf, λ h. ground (arith, h))
      ]
    ]
  ]

  ensure-Good :
      (busy : Bool) (cache held : Cache) (clock : Clock) (answer : Registry ⊎ Error)
      → WellFormed cache.services
      → WellFormed held.services
      → NotEarlier clock
      → Good clock (ensure u busy cache held clock answer)
  unfolding ensure Good NotEarlier
  ensure-Good busy cache held clock answer wc wh order =
      elim (Bool-cases (is_fresh cache clock.first)) [
        | inl e ↦ rw e (wc, λ _. fresh_age cache clock.first clock.first e (omega arith))
        | inr e ↦ elim (Bool-cases (serves cache clock.second && busy)) [
          | inl s ↦
              rw (e, s)
                (wc, λ _. serves_age cache clock.second clock.first (ground (arith, s)) order.0)
          | inr s ↦ rw (e, s) (refresh-Good held clock answer wh order)
        ]
      ]

  -- The clock of a call does not run back before its first reading. Where ServersFor returns no error,
  -- the table that it read was at most 72 hours old when the call began, although the registry may be
  -- out of reach; the servers are those of the longest suffix of the name that has an entry with
  -- servers; there is at least one, and each begins with https:// or http://. This holds whether or
  -- not another call is fetching, and whatever well formed table that one leaves.
  pub servers_for_recent :
      (idna : Text → Option Text) (busy : Bool) (cache held : Cache) (clock : Clock)
      (answer : Registry ⊎ Error) (domain : Text)
      → WellFormed cache.services
      → WellFormed held.services
      → NotEarlier clock
      → (servers_for u idna busy cache held clock answer domain).err ≡ none
      → let r = servers_for u idna busy cache held clock answer domain in
        (leb (clock.first - r.cache.fetched_at) bootstrap_max_age ≡ true)
        × (usable r.urls ≡ true)
        × ServersOf r.cache.services (normalize_domain_to_ascii_text u idna domain) r.urls
        × WellFormed r.cache.services
  unfolding servers_for Good ServersOf
  servers_for_recent idna busy cache held clock answer domain wc wh order served =
      let left = ensure u busy cache held clock answer in
      let (wf, age) = ensure-Good busy cache held clock answer wc wh order in
      let names = suffixes (normalize_domain_to_ascii_text u idna domain) in
      elim (Option-cases left.err) [
        | inr (e, f) ↦ ground (arith, served, f)
        | inl n ↦ elim (Option-cases (longest_match (servers_of left.cache.services) names)) [
          | inl m ↦ ground (arith, served, n, m)
          | inr (urls, m) ↦
              let (i, suffix, at, e, longest) =
                longest_match_lem (servers_of left.cache.services) names urls m in
              rw (servers_for, n, m)
                (
                  age n,
                  servers_of-usable left.cache.services suffix urls wf e,
                  (i, suffix, at, e, longest),
                  wf,
                )
        ]
      ]
