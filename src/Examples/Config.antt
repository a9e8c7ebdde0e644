-- ===== src/Examples/Config.antt =====
-- Configurations at concrete values.
use domain_monitor.Base.{
  ℕ, ◌^◌, ◌≤◌, ◌≡◌, refl, Bool, true, false, List, [], ◌∷◌, ◌++◌, Option, none, some, all, any,
  distinct, length, contains, is_empty, ◌==◌, leb, if◌then◌else◌,
}
use domain_monitor.Text.{Text, codes, text_eq, text_beq, ascii}
use domain_monitor.Types.Float.{pos}
use domain_monitor.Types.Config.{DomainConfig, DnsTask, AppConfig}
use domain_monitor.Config.Result.{accept, refuse, duplicate_domain, reserved_dns_name}
use domain_monitor.Config.Endpoints.{
  IpAddress, Net, valid_tcp_port, valid_resolver_endpoints, min_loop_interval_days,
  max_loop_interval_days,
}
use domain_monitor.Config.Domain.{NameRules}
use domain_monitor.Config.Task.{RecordFormats, CaaRecord}
use domain_monitor.Config.Checks.{compile_raw_config, normalize_configured_checks}
use domain_monitor.Config.Checks.Compiled.{Checked, float_at_most, compile_raw_config-accepted}

abbrev rules : NameRules
rules = record { to_ascii = λ t. some t; matches = λ t. any (λ c. c == b'.') t }

-- Texts that start with a digit are addresses.
abbrev if_address : Text → Option IpAddress
if_address [] = none
if_address (c ∷ t) = if leb c b'9' then some (record { is_v4 = true; text = c ∷ t }) else none

abbrev net : Net
net = record {
  parse_ip = λ t. if_address t;
  split_host_port = λ t. none;
  parse_url = λ t. some (record {
    scheme = codes "https";
    hostname = codes "dns.google";
    port = [];
    has_user = false;
  });
}

abbrev formats : RecordFormats
formats = record {
  parse_caa =
      λ t. some (record { flag = codes "0"; tag = codes "issue"; value = codes "ca.example" });
  quote = λ t. codes "\"" ++ (t ++ codes "\"");
}

abbrev domain : Text → Text → DomainConfig
domain host title = record {
  domain = host;
  name = title;
  root_zone = [];
  registrar = [];
  nameservers = [];
  email = none;
  caa =
      some
        (record { issue = some (codes "CA.example" ∷ []); issue_wild = none; issue_mail = none });
  renewal_price = pos 0;
  allow_expiry = false;
  domain_transfer_locked = false;
  dnssec = false;
  suppress_alerts = false;
}

abbrev task : Text → DnsTask
task name = record {
  domain_caa = false;
  hostname = codes "www.example.com";
  name = name;
  record_type = codes "a";
  expected = some (codes "192.0.2.1" ∷ []);
  match_type = [];
  custom_resolver = [];
}

abbrev raw : List DomainConfig → List DnsTask → AppConfig
raw domains tasks = record {
  port = [];
  loop_interval_days = pos 0;
  notifications = record { ntfy = none };
  resolvers = [];
  doh_url = [];
  email_providers_dir = [];
  domains = domains;
  dns_records = tasks;
}

abbrev one : AppConfig
one = raw (domain (codes " Example.com. ") (codes "shop") ∷ []) (task (codes "www") ∷ [])

ports :
    (valid_tcp_port (codes "8080") ≡ true)
    × (valid_tcp_port (codes "65536") ≡ false)
    × (valid_tcp_port (codes "-1") ≡ false)
unfolding valid_tcp_port
ports = (refl, refl, refl)

same_domain_refused :
    compile_raw_config ascii rules net formats (
      raw
        (domain (codes "example.com") (codes "a") ∷ domain (codes "EXAMPLE.com.") (codes "b") ∷ [])
        [])
    ≡ refuse duplicate_domain
unfolding compile_raw_config domain_monitor.Config.Endpoints.validate_config_endpoints
    valid_tcp_port valid_resolver_endpoints domain_monitor.Config.Endpoints.valid_http_url
    domain_monitor.Config.Endpoints.validate_notification_endpoints normalize_configured_checks any
    domain_monitor.Config.Checks.normalize_domains
    domain_monitor.Config.Domain.normalize_domain_config
    domain_monitor.Config.Domain.normalize_domain_name domain_monitor.Config.Domain.ascii_name
    domain_monitor.Utils.normalize_domain_to_ascii_text domain_monitor.Config.Domain.valid_name
    domain_monitor.Text.byte_len domain_monitor.Base.lookup
    domain_monitor.Config.Domain.normalize_domain_nameservers
    domain_monitor.Config.Domain.normalize_domain_metadata
    domain_monitor.Config.Domain.normalize_domain_email domain_monitor.Base.insert
same_domain_refused = refl

reserved_name_refused :
    compile_raw_config ascii rules net formats (raw [] (task (codes " __caa__x") ∷ []))
    ≡ refuse reserved_dns_name
unfolding compile_raw_config domain_monitor.Config.Endpoints.validate_config_endpoints
    valid_tcp_port valid_resolver_endpoints domain_monitor.Config.Endpoints.valid_http_url
    domain_monitor.Config.Endpoints.validate_notification_endpoints normalize_configured_checks any
    domain_monitor.Config.Checks.is_reserved
reserved_name_refused = refl

-- The domain in its normal form, and its CAA task behind the configured one.
abbrev compiled : AppConfig
compiled = record one {
  port = codes "8080";
  loop_interval_days = pos (2 ^ 1072);
  resolvers = codes "1.1.1.1" ∷ codes "8.8.8.8" ∷ codes "9.9.9.9" ∷ [];
  doh_url = codes "https://dns.google/resolve";
  domains =
      record (domain (codes "example.com") (codes "shop")) {
        caa = some (record {
          issue = some (codes "ca.example" ∷ []);
          issue_wild = none;
          issue_mail = none;
        });
      }
      ∷ [];
  dns_records =
      record (task (codes "www")) { record_type = codes "A" }
      ∷ record {
        domain_caa = true;
        hostname = codes "example.com";
        name = codes "__caa__example.com";
        record_type = codes "CAA";
        expected = some (codes "0 issue \"ca.example\"" ∷ []);
        match_type = [];
        custom_resolver = [];
      }
      ∷ [];
}

one_accepted : compile_raw_config ascii rules net formats one ≡ accept compiled
unfolding compile_raw_config domain_monitor.Config.Endpoints.validate_config_endpoints
    domain_monitor.Config.Endpoints.valid_http_url
    domain_monitor.Config.Endpoints.validate_notification_endpoints
    domain_monitor.Config.Endpoints.apply_loop_interval_bounds
    domain_monitor.Config.Endpoints.bounded_interval
    domain_monitor.Config.Endpoints.default_loop_interval_days
    domain_monitor.Config.Checks.is_reserved domain_monitor.Config.Checks.normalize_domains
    domain_monitor.Config.Checks.caa_tasks domain_monitor.Config.Checks.normalize_tasks
    domain_monitor.Config.Domain.normalize_domain_config
    domain_monitor.Config.Domain.normalize_domain_name domain_monitor.Config.Domain.ascii_name
    domain_monitor.Utils.normalize_domain_to_ascii_text domain_monitor.Config.Domain.valid_name
    domain_monitor.Text.byte_len domain_monitor.Base.lookup domain_monitor.Base.insert
    domain_monitor.Base.keep domain_monitor.Base.contains
    domain_monitor.Config.Domain.normalize_domain_nameservers
    domain_monitor.Config.Domain.normalize_domain_metadata
    domain_monitor.Config.Domain.normalize_domain_email
    domain_monitor.Config.Domain.normalize_domain_caa domain_monitor.Config.Task.normalize_dns_task
    domain_monitor.Config.Task.normalize_dns_task_identity
    domain_monitor.Config.Task.validate_dns_task_options domain_monitor.Config.Task.dns_type_known
    domain_monitor.Config.Task.known_match_types
    domain_monitor.Config.Task.normalize_dns_task_expected domain_monitor.Base.sort
    domain_monitor.Text.to_upper domain_monitor.Text.to_lower domain_monitor.Text.trim_space
    valid_tcp_port valid_resolver_endpoints normalize_configured_checks any text_beq
one_accepted = refl

compile_raw_config-accepted_example :
    Checked ascii rules compiled
    × (length compiled.resolvers ≤ 9)
    × (valid_resolver_endpoints net compiled.resolvers ≡ true)
    × (float_at_most min_loop_interval_days compiled.loop_interval_days ≡ true)
    × (float_at_most compiled.loop_interval_days max_loop_interval_days ≡ true)
compile_raw_config-accepted_example =
    compile_raw_config-accepted ascii rules net formats one compiled one_accepted
