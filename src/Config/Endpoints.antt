-- ===== src/Config/Endpoints.antt =====
-- The addresses that the configuration names: validateConfigEndpoints, validateNotificationEndpoints,
-- validateTCPPort, validateResolverEndpoint, validateHTTPURL and applyLoopIntervalBounds in
-- src/internal/monitor/config.go. What they call of the packages net and net/url is a parameter.
use domain_monitor.Base.{
  ℕ, ◌*◌, ◌^◌, Bool, true, false, not, ◌&&◌, ◌||◌, List, [], ◌∷◌, Option, none, some, ltb, leb,
  ◌==◌, if◌then◌else◌, is_empty, is_some, any, length,
}
use domain_monitor.Text.{
  Text, codes, text_beq, Unicode, equal_fold, trim_space, has_substring, one_of, digits_value,
}
use domain_monitor.Types.Float.{Float64, pos, negsuc}
use domain_monitor.Types.Config.{NotificationConfig, AppConfig}
use domain_monitor.Config.Result.{
  Result, accept, ◌>>=◌, unless, invalid_server_port, too_many_resolvers, invalid_resolver,
  invalid_doh_url, invalid_ntfy_url, authenticated_ntfy_requires_https,
}

-- net.IP of a text: whether To4 gives an address, and its canonical text.
pub record IpAddress : Type 0 where
  pub is_v4 : Bool
  pub text : Text

-- url.URL, as far as it is read. An empty port is one that is not there.
pub record Url : Type 0 where
  pub scheme : Text
  pub hostname : Text
  pub port : Text
  pub has_user : Bool

-- net.ParseIP, net.SplitHostPort and url.Parse, with `none` for nil and for an error.
pub record Net : Type 0 where
  pub parse_ip : Text → Option IpAddress
  pub split_host_port : Text → Option (Text × Text)
  pub parse_url : Text → Option Url

-- The digits behind the sign are a number from 1 to 65535; behind a minus none is.
unfoldable pub digits_in_range : Text → Bool
unfolding digits_value
digits_in_range [] = false
digits_in_range (c ∷ s) = elim (digits_value (c ∷ s) 0) [
  | none ↦ false
  | some n ↦ leb 1 n && leb n 65535
]

unfoldable pub valid_tcp_port : Text → Bool
unfolding digits_in_range
valid_tcp_port [] = false
valid_tcp_port (c ∷ s) = if c == b'+' then digits_in_range s else digits_in_range (c ∷ s)

module _ (net : Net) where
  unfoldable pub valid_host : Text → Bool
  valid_host host =
      is_some (net.parse_ip host)
      || not (is_empty host || any (λ c. one_of (codes " /?#@\\") c) host)

  unfoldable pub valid_resolver_endpoint : Text → Bool
  unfolding valid_host valid_tcp_port trim_space has_substring
  valid_resolver_endpoint raw =
      let endpoint = trim_space raw in
      if is_empty endpoint
      then false
      else if is_some (net.parse_ip endpoint)
      then true
      else if has_substring endpoint (codes ":")
      then elim (net.split_host_port endpoint) [
        | none ↦ false
        | some (host, port) ↦ valid_tcp_port port && valid_host host
      ]
      else valid_host endpoint

  unfoldable pub valid_http_url : Text → Bool
  unfolding valid_tcp_port text_beq
  valid_http_url raw = elim (net.parse_url raw) [
    | none ↦ false
    | some u ↦
        if not (text_beq u.scheme (codes "http")) && not (text_beq u.scheme (codes "https"))
          || is_empty u.hostname
          || u.has_user
        then false
        else is_empty u.port || valid_tcp_port u.port
  ]

  unfoldable pub is_https : Unicode → Text → Bool
  unfolding equal_fold
  is_https uni raw = elim (net.parse_url raw) [
    | none ↦ false
    | some u ↦ equal_fold uni u.scheme (codes "https")
  ]

  unfoldable pub validate_notification_endpoints :
      Unicode → NotificationConfig → Result NotificationConfig
  unfolding valid_http_url is_https trim_space
  validate_notification_endpoints uni notifications = elim notifications.ntfy [
    | none ↦ accept notifications
    | some ntfy ↦
        let address = trim_space ntfy.url in
        if is_empty address
        then accept (record notifications { ntfy = none })
        else unless (valid_http_url address) invalid_ntfy_url (
            unless (is_empty ntfy.auth || is_https uni address) authenticated_ntfy_requires_https
              (accept (record notifications { ntfy = some (record ntfy { url = address }) })))
  ]

  unfoldable pub valid_resolver_endpoints : List Text → Bool
  unfolding valid_resolver_endpoint
  valid_resolver_endpoints [] = true
  valid_resolver_endpoints (e ∷ rest) = valid_resolver_endpoint e && valid_resolver_endpoints rest

unfoldable pub default_resolvers : List Text
default_resolvers = codes "1.1.1.1" ∷ codes "8.8.8.8" ∷ codes "9.9.9.9" ∷ []

abbrev pub max_resolvers_limit : ℕ
max_resolvers_limit = 9

abbrev pub or_default : Text → Text → Text
or_default t d = if is_empty t then d else t

unfoldable pub with_default_resolvers : List Text → List Text
unfolding default_resolvers
with_default_resolvers resolvers = if is_empty resolvers then default_resolvers else resolvers

unfoldable pub validate_config_endpoints : Unicode → Net → AppConfig → Result AppConfig
unfolding with_default_resolvers
validate_config_endpoints uni net config =
    let port = or_default config.port (codes "8080") in
    let resolvers = with_default_resolvers config.resolvers in
    let doh = or_default config.doh_url (codes "https://dns.google/resolve") in
    unless (valid_tcp_port port) invalid_server_port (
      unless (leb (length resolvers) max_resolvers_limit) too_many_resolvers (
        unless (valid_resolver_endpoints net resolvers) invalid_resolver (
          unless (valid_http_url net doh) invalid_doh_url (
            validate_notification_endpoints net uni config.notifications >>= λ notifications.
            accept (record config {
              port = port;
              resolvers = resolvers;
              doh_url = doh;
              notifications = notifications;
            })))))

-- Days as floats: an eighth, a quarter, and 365.
unfoldable pub min_loop_interval_days : Float64
min_loop_interval_days = pos (2 ^ 1071)

unfoldable pub default_loop_interval_days : Float64
default_loop_interval_days = pos (2 ^ 1072)

unfoldable pub max_loop_interval_days : Float64
max_loop_interval_days = pos (365 * 2 ^ 1074)

abbrev pub is_zero_float : Float64 → Bool
is_zero_float (pos n) = n == 0
is_zero_float (negsuc n) = false

-- `a < b`
abbrev pub float_less : Float64 → Float64 → Bool
float_less (pos a) (pos b) = ltb a b
float_less (pos a) (negsuc b) = false
float_less (negsuc a) (pos b) = true
float_less (negsuc a) (negsuc b) = ltb b a

-- The switch over the interval, with its three constants.
unfoldable pub clamp_days : Float64 → Float64 → Float64 → Float64 → Float64
clamp_days low usual high days =
    if is_zero_float days
    then usual
    else if float_less days low
    then low
    else if float_less high days
    then high
    else days

unfoldable pub bounded_interval : Float64 → Float64
unfolding clamp_days
bounded_interval days =
    clamp_days min_loop_interval_days default_loop_interval_days max_loop_interval_days days

unfoldable pub apply_loop_interval_bounds : AppConfig → AppConfig
apply_loop_interval_bounds config = record config {
  loop_interval_days = bounded_interval config.loop_interval_days;
}
