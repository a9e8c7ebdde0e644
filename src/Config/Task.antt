-- ===== src/Config/Task.antt =====
-- One DNS task of the configuration: normalizeDNSTask and what it calls in
-- src/internal/monitor/config.go, with canonicalCAARecordValue and dnsTypeForName of dns.go. The
-- parser of CAA records, dns.NewRR, and strconv.Quote are parameters.
pub mod Names
use domain_monitor.Base.{
  ℕ, Bool, true, false, not, ◌&&◌, ◌||◌, List, [], ◌∷◌, ◌++◌, Option, none, some, if◌then◌else◌,
  is_empty, is_some, contains, any, KeySet, member, add, sort,
}
use domain_monitor.Text.{
  Text, codes, text_beq, text_eq, Unicode, to_lower, to_upper, trim_space, trim_suffix, has_prefix,
  drop_bytes,
}
use domain_monitor.Utils.{normalize_domain_to_ascii_text}
use domain_monitor.Notify.Order.{text_not_after}
use domain_monitor.Types.Config.{DnsTask}
use domain_monitor.Config.Result.{
  Result, accept, refuse, ◌>>=◌, unless, dns_empty_hostname, dns_missing_name, duplicate_dns_name,
  dns_missing_type, unsupported_record_type, unsupported_match_type, missing_expected,
  invalid_custom_resolver, invalid_expected_caa, invalid_expected_ip, wrong_ip_version,
  empty_expected,
}
use domain_monitor.Config.Endpoints.{IpAddress, Net, valid_resolver_endpoint}
use domain_monitor.Config.Domain.{NameRules, ascii_name, canonical_caa_issue_value}

-- dns.CAA; the flag is its decimal text.
pub record CaaRecord : Type 0 where
  pub flag : Text
  pub tag : Text
  pub value : Text

-- `parse_caa` is dns.NewRR, with `none` for an error and for a record of another type.
pub record RecordFormats : Type 0 where
  pub parse_caa : Text → Option CaaRecord
  pub quote : Text → Text

unfoldable pub known_record_types : List Text
known_record_types =
    codes "A"
    ∷ codes "AAAA"
    ∷ codes "CNAME"
    ∷ codes "MX"
    ∷ codes "TXT"
    ∷ codes "CAA"
    ∷ codes "NS"
    ∷ []

-- Whether dnsTypeForName knows a type.
unfoldable pub dns_type_known : Text → Bool
unfolding known_record_types contains text_beq
dns_type_known type = contains known_record_types type

unfoldable pub known_match_types : List Text
known_match_types =
    codes "" ∷ codes "exact" ∷ codes "prefix" ∷ codes "contains" ∷ codes "any_of" ∷ []

abbrev pub is_type : Text → List Text → Bool
is_type type types = any (λ t. text_beq t type) types

module _ (u : Unicode) (rules : NameRules) where
  unfoldable pub normalize_dns_task_identity :
      DnsTask → KeySet Text → Result (DnsTask × KeySet Text)
  normalize_dns_task_identity t seen =
      let hostname = ascii_name u rules t.hostname in
      let name = trim_space t.name in
      unless (not (is_empty hostname)) dns_empty_hostname (
        unless (not (is_empty name)) dns_missing_name (
          unless (not (member name seen)) duplicate_dns_name
            (accept (record t { hostname = hostname; name = name }, add name seen))))

  unfoldable pub canonical_caa_record_value : RecordFormats → CaaRecord → Text
  unfolding to_lower
  canonical_caa_record_value formats r =
      let tag = to_lower u r.tag in
      let value =
        if is_type tag (codes "issue" ∷ codes "issuewild" ∷ codes "issuemail" ∷ [])
        then canonical_caa_issue_value u rules r.value
        else r.value in
      r.flag ++ (codes " " ++ (tag ++ (codes " " ++ formats.quote value)))

  module _ (net : Net) (formats : RecordFormats) where
    unfoldable pub validate_dns_task_options : DnsTask → Result DnsTask
    validate_dns_task_options t =
        let type = to_upper u (trim_space t.record_type) in
        let match_type = to_lower u (trim_space t.match_type) in
        unless (not (is_empty type)) dns_missing_type (
          unless (dns_type_known type || is_type type (codes "IP" ∷ codes "ALIAS" ∷ []))
            unsupported_record_type
            (unless (contains known_match_types match_type) unsupported_match_type (
              unless (is_some t.expected) missing_expected (
                unless (is_empty t.custom_resolver || valid_resolver_endpoint net t.custom_resolver)
                  invalid_custom_resolver
                  (accept (record t { record_type = type; match_type = match_type }))))))

    -- An expected address; the type says which versions are right.
    unfoldable pub normalize_expected_ip_value : Text → Option IpAddress → Result Text
    normalize_expected_ip_value type none = refuse invalid_expected_ip
    normalize_expected_ip_value type (some ip) =
        unless (not (text_beq type (codes "A") && not ip.is_v4)) wrong_ip_version (
          unless (not (text_beq type (codes "AAAA") && ip.is_v4)) wrong_ip_version (accept ip.text))

    -- A value that is neither text nor CAA, without its dot and its label, in lower case.
    unfoldable pub clean_value : Text → Text
    unfolding trim_space trim_suffix has_prefix to_lower drop_bytes
    clean_value raw =
        let clean = trim_suffix (trim_space raw) (codes ".") in
        to_lower u (
          if has_prefix (to_lower u clean) (codes "alias:")
          then trim_space (drop_bytes 6 clean)
          else clean)

    unfoldable pub normalize_expected_dns_value : Text → Text → Result Text
    unfolding clean_value normalize_expected_ip_value canonical_caa_record_value
    normalize_expected_dns_value type raw =
        let clean = clean_value raw in
        let ip = net.parse_ip clean in
        let name : Result Text = accept (ascii_name u rules clean) in
        if text_beq type (codes "TXT")
        then accept (trim_space raw)
        else if text_beq type (codes "CAA")
        then if is_empty (trim_space raw)
          then accept []
          else elim (formats.parse_caa (codes "example. 60 IN CAA " ++ trim_space raw)) [
            | none ↦ refuse invalid_expected_caa
            | some r ↦ accept (canonical_caa_record_value formats r)
          ]
        else if is_empty (trim_suffix (trim_space raw) (codes "."))
        then accept []
        else if is_type type (codes "A" ∷ codes "AAAA" ∷ codes "IP" ∷ [])
        then normalize_expected_ip_value type ip
        else if is_type type (codes "ALIAS" ∷ codes "CNAME" ∷ [])
        then elim ip [ none ↦ name | some a ↦ accept a.text ]
        else name

    -- The loop over the expected values, with those that are kept so far.
    unfoldable pub normalize_values : Text → List Text → List Text → Result (List Text)
    unfolding normalize_expected_dns_value
    normalize_values type [] kept = accept kept
    normalize_values type (raw ∷ rest) kept = elim (normalize_expected_dns_value type raw) [
      | refuse r ↦ refuse r
      | accept v ↦
          normalize_values type rest
            (if is_empty v || contains kept v then kept else kept ++ v ∷ [])
    ]

    -- An empty list of expected values is nil.
    abbrev pub nil_if_empty : List Text → Option (List Text)
    nil_if_empty [] = none
    nil_if_empty (v ∷ vs) = some (v ∷ vs)

    unfoldable pub normalize_dns_task_expected : DnsTask → List Text → Result DnsTask
    unfolding normalize_values
    normalize_dns_task_expected t raw = normalize_values t.record_type raw [] >>= λ kept.
        let values =
          if is_type t.record_type (codes "A" ∷ codes "AAAA" ∷ codes "IP" ∷ [])
          then sort text_not_after kept
          else kept in
        unless (not (is_empty kept) || is_type t.match_type (codes "" ∷ codes "exact" ∷ []))
          empty_expected (accept (record t { expected = nil_if_empty values }))

    abbrev pub listed : Option (List Text) → List Text
    listed none = []
    listed (some values) = values

    unfoldable pub normalize_dns_task : DnsTask → KeySet Text → Result (DnsTask × KeySet Text)
    normalize_dns_task t seen = normalize_dns_task_identity t seen >>= λ named.
        validate_dns_task_options named.0 >>= λ checked.
        normalize_dns_task_expected checked (listed checked.expected) >>= λ done.
        accept (done, named.1)
