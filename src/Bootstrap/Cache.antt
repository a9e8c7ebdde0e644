-- ===== src/Bootstrap/Cache.antt =====
-- The cache of the registry file: isFresh, cachedRegistryAge, ensure and ServersFor in
-- src/internal/monitor/bootstrap.go. One fetch runs at a time. A call first reads the cache, and once
-- it may fetch, it reads the cache that it then holds, which another call may have replaced meanwhile.
pub mod Served
use domain_monitor.Base.{
  ℕ, ◌-◌, ◌*◌, ◌⊎◌, inl, inr, Bool, not, ◌&&◌, List, [], ◌++◌, Option, none, some, ltb, leb,
  if◌then◌else◌, is_empty, lookup,
}
use domain_monitor.Text.{Text, codes, text_eq, Unicode}
use domain_monitor.Errors.{Error, MaybeError}
use domain_monitor.Types.Condition.{Time}
use domain_monitor.Utils.{normalize_domain_to_ascii_text}
use domain_monitor.Bootstrap.Suffix.{longest_match, suffixes}
use domain_monitor.Bootstrap.Registry.{Services, Registry, fetch_services}

-- In nanoseconds.
abbrev pub bootstrap_ttl : ℕ
bootstrap_ttl = 24 * 3600000000000

abbrev pub bootstrap_max_age : ℕ
bootstrap_max_age = 72 * 3600000000000

pub record Cache : Type 0 where
  pub services : Services
  pub fetched_at : Time

-- An age below zero counts as zero, which every bound admits.
unfoldable pub is_fresh : Cache → Time → Bool
is_fresh cache now = not (is_empty cache.services) && ltb (now - cache.fetched_at) bootstrap_ttl

unfoldable pub cached_registry_age : Cache → Time → Bool × ℕ
cached_registry_age cache now = (not (is_empty cache.services), now - cache.fetched_at)

-- `hasData && cacheAge <= BootstrapMaxAge`
unfoldable pub serves : Cache → Time → Bool
unfolding cached_registry_age
serves cache now =
    let (has_data, age) = cached_registry_age cache now in has_data && leb age bootstrap_max_age

-- The readings of the clock in one call: in isFresh, in cachedRegistryAge, in isFresh once more, when
-- the fetched services are stored, and in cachedRegistryAge after a fetch that failed.
pub record Clock : Type 0 where
  pub first : Time
  pub second : Time
  pub third : Time
  pub stored : Time
  pub fourth : Time

-- WrapError around the error of the fetch.
unfoldable pub registry_unavailable : Error → Error
registry_unavailable e = record {
  message = codes "bootstrap registry unavailable: " ++ e.message;
  chain = e.chain;
}

unfoldable pub no_server_for : Text → Error
no_server_for domain = record {
  message = codes "no rdap server found for domain " ++ domain;
  chain = [];
}

-- What a call leaves, and its result.
pub record Ensured : Type 0 where
  pub cache : Cache
  pub err : MaybeError

pub record Servers : Type 0 where
  pub cache : Cache
  pub urls : List Text
  pub err : MaybeError

abbrev without_error : Cache → Ensured
without_error cache = record { cache = cache; err = none }

-- What the table has for one suffix.
unfoldable pub servers_of : Services → Text → Option (List Text)
servers_of services suffix = elim (lookup suffix services) [
  | none ↦ none
  | some urls ↦ if not (is_empty urls) then some urls else none
]

module _ (u : Unicode) where
  -- Behind the lock: a second look, then the fetch.
  unfoldable pub refresh : Cache → Clock → Registry ⊎ Error → Ensured
  unfolding is_fresh fetch_services serves registry_unavailable
  refresh held clock answer =
      if is_fresh held clock.third then without_error held else elim (fetch_services u answer) [
        | inl services ↦ without_error (record { services = services; fetched_at = clock.stored })
        | inr e ↦
            if serves held clock.fourth
            then without_error held
            else record { cache = held; err = some (registry_unavailable e) }
      ]

  -- `busy` says that another call is fetching, so that TryLock fails; `cache` is what the call reads
  -- first, `held` what it reads behind the lock.
  unfoldable pub ensure : Bool → Cache → Cache → Clock → Registry ⊎ Error → Ensured
  unfolding refresh is_fresh serves
  ensure busy cache held clock answer =
      if is_fresh cache clock.first
      then without_error cache
      else if serves cache clock.second && busy
      then without_error cache
      else refresh held clock answer

  -- `idna` is golang.org/x/net/idna.ToASCII.
  unfoldable pub servers_for :
      (Text → Option Text) → Bool → Cache → Cache → Clock → Registry ⊎ Error → Text → Servers
  servers_for idna busy cache held clock answer domain =
      let ensured = ensure busy cache held clock answer in
      elim ensured.err [
        | some e ↦ record { cache = ensured.cache; urls = []; err = some e }
        | none ↦
            elim (longest_match (servers_of ensured.cache.services)
              (suffixes (normalize_domain_to_ascii_text u idna domain))) [
                | some urls ↦ record { cache = ensured.cache; urls = urls; err = none }
                | none ↦ record {
                  cache = ensured.cache;
                  urls = [];
                  err = some (no_server_for domain);
                }
              ]
      ]
