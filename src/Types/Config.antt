-- ===== src/Types/Config.antt =====
-- The configuration: src/internal/monitor/types.go, section 2. A pointer, and a slice whose nil
-- differs from the empty one, is an `Option`.
use domain_monitor.Base.{Bool, not, List, Option, Map, is_empty}
use domain_monitor.Text.{Text, codes}
use domain_monitor.Types.Float.{Float64}

pub record NtfyConfig : Type 0 where
  pub url : Text
  pub auth : Text

pub record NotificationConfig : Type 0 where
  pub ntfy : Option NtfyConfig

pub record NameserverConfig : Type 0 where
  pub hostname : Text
  pub hidden : Bool

pub record EmailConfig : Type 0 where
  pub provider : Text
  pub mx_records : List Text
  pub dkim_selectors : List Text

-- A nil tag is unconstrained; an empty one that is not nil denies all issuers.
pub record CaaConfig : Type 0 where
  pub issue : Option (List Text)
  pub issue_wild : Option (List Text)
  pub issue_mail : Option (List Text)

pub record DomainConfig : Type 0 where
  pub domain : Text
  pub name : Text
  pub root_zone : Text
  pub registrar : Text
  pub nameservers : List NameserverConfig
  pub email : Option EmailConfig
  pub caa : Option CaaConfig
  pub renewal_price : Float64
  pub allow_expiry : Bool
  pub domain_transfer_locked : Bool
  pub dnssec : Bool
  pub suppress_alerts : Bool

unfoldable pub is_delegated_zone : DomainConfig → Bool
is_delegated_zone d = not (is_empty d.root_zone)

pub record DnsTask : Type 0 where
  pub domain_caa : Bool
  pub hostname : Text
  pub name : Text
  pub record_type : Text
  pub expected : Option (List Text)
  pub match_type : Text
  pub custom_resolver : Text

pub record AppConfig : Type 0 where
  pub port : Text
  pub loop_interval_days : Float64
  pub notifications : NotificationConfig
  pub resolvers : List Text
  pub doh_url : Text
  pub email_providers_dir : Text
  pub domains : List DomainConfig
  pub dns_records : List DnsTask

pub record ProviderConfig : Type 0 where
  pub mx_records : List Text
  pub dkim_selectors : List Text

abbrev pub Providers : Type 0
Providers = Map Text ProviderConfig

-- What the names of the tasks made for CAA sections start with.
unfoldable pub internal_caa_task_prefix : Text
internal_caa_task_prefix = codes "__caa__"
