-- ===== src/Examples/Bootstrap.antt =====
-- The bootstrap cache at concrete values.
use domain_monitor.Base.{
  ◌-◌, ◌≡◌, refl, inl, inr, true, false, List, [], ◌∷◌, Option, none, some, leb, arith,
}
use domain_monitor.Text.{Text, codes, text_beq, ascii}
use domain_monitor.Errors.{Error}
use domain_monitor.Utils.{normalize_domain_to_ascii_text}
use domain_monitor.Bootstrap.Tables.{stealth_seeds}
use domain_monitor.Bootstrap.Suffix.{suffixes, known_whois_server}
use domain_monitor.Bootstrap.Registry.{Registry, Services, bootstrap_services, with_seeds}
use domain_monitor.Bootstrap.Registry.Sound.{usable, WellFormed, fetch_services-WellFormed}
use domain_monitor.Bootstrap.Cache.{Cache, Clock, Servers, bootstrap_max_age, servers_for}
use domain_monitor.Bootstrap.Cache.Served.{NotEarlier, ServersOf, servers_for_recent}

abbrev same_name : Text → Option Text
same_name name = some name

suffixes_run : suffixes (codes "a.b.c") ≡ codes "a.b.c" ∷ codes "b.c" ∷ codes "c" ∷ []
unfolding suffixes
suffixes_run = refl

whois_of_suffix :
    (known_whois_server ascii same_name (codes "www.Example.co.uk.") ≡ codes "whois.nominet.uk")
    × (known_whois_server ascii same_name (codes "example.com") ≡ [])
unfolding known_whois_server domain_monitor.Bootstrap.Tables.cctld_whois_servers
    domain_monitor.Base.lookup text_beq normalize_domain_to_ascii_text
whois_of_suffix = (refl, refl)

abbrev registry : Registry
registry =
    ((codes ".COM" ∷ codes "net" ∷ [])
      ∷ (codes "ftp://x" ∷ codes "https://rdap.verisign.com/" ∷ [])
      ∷ [])
    ∷ []

abbrev entries : Services
entries = bootstrap_services ascii registry

registry_read :
    entries
    ≡ (codes ".com", codes "https://rdap.verisign.com/" ∷ [])
      ∷ (codes "net", codes "https://rdap.verisign.com/" ∷ [])
      ∷ []
unfolding bootstrap_services domain_monitor.Base.keep domain_monitor.Base.lookup
    domain_monitor.Base.insert text_beq
registry_read = refl

-- Fetched at the start, and 48 hours old in the call.
abbrev stale : Cache
stale = record { services = with_seeds ascii stealth_seeds entries; fetched_at = 0 }

abbrev clock : Clock
clock = record {
  first = 172800000000000;
  second = 172800000000001;
  third = 172800000000002;
  stored = 172800000000003;
  fourth = 172800000000004;
}

abbrev unreachable : Error
unreachable = record { message = codes "no route"; chain = [] }

stale-WellFormed : WellFormed stale.services
unfolding domain_monitor.Bootstrap.Registry.fetch_services domain_monitor.Base.keep
    domain_monitor.Base.lookup domain_monitor.Base.insert text_beq
stale-WellFormed = (fetch_services-WellFormed ascii (inl registry) stale.services refl).1

clock-NotEarlier : NotEarlier clock
unfolding NotEarlier
clock-NotEarlier = ground arith

-- The registry is out of reach.
abbrev reply : Servers
reply =
    servers_for ascii same_name false stale stale clock (inr unreachable) (codes "www.example.net")

outage_tolerated : reply.err ≡ none
unfolding servers_for domain_monitor.Bootstrap.Cache.ensure
    domain_monitor.Bootstrap.Suffix.longest_match domain_monitor.Bootstrap.Cache.servers_of
    bootstrap_services with_seeds stealth_seeds suffixes normalize_domain_to_ascii_text
    domain_monitor.Base.keep domain_monitor.Base.lookup domain_monitor.Base.insert text_beq
outage_tolerated = refl

servers_for_recent_example :
    (leb (clock.first - reply.cache.fetched_at) bootstrap_max_age ≡ true)
    × (usable reply.urls ≡ true)
    × ServersOf reply.cache.services
        (normalize_domain_to_ascii_text ascii same_name (codes "www.example.net"))
        reply.urls
    × WellFormed reply.cache.services
servers_for_recent_example =
    servers_for_recent ascii same_name false stale stale clock (inr unreachable)
      (codes "www.example.net") stale-WellFormed stale-WellFormed clock-NotEarlier outage_tolerated
