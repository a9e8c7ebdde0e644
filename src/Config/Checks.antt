-- ===== src/Config/Checks.antt =====
-- All checks of the configuration: normalizeConfiguredChecks and compileRawConfig in
-- src/internal/monitor/config.go.
pub mod Accepted
pub mod Compiled
use domain_monitor.Base.{
  Bool, true, not, ◌||◌, List, [], ◌∷◌, ◌++◌, map, Option, none, some, if◌then◌else◌, is_empty, any,
  KeySet,
}
use domain_monitor.Text.{Text, codes, Unicode, trim_space, has_prefix}
use domain_monitor.Types.Config.{
  internal_caa_task_prefix, CaaConfig, DomainConfig, DnsTask, AppConfig,
}
use domain_monitor.Config.Result.{Result, accept, refuse, ◌>>=◌, unless, reserved_dns_name}
use domain_monitor.Config.Endpoints.{Net, validate_config_endpoints, apply_loop_interval_bounds}
use domain_monitor.Config.Domain.{NameRules, Normalized, normalize_domain_config}
use domain_monitor.Config.Task.{RecordFormats, normalize_dns_task}

unfoldable pub is_reserved : DnsTask → Bool
unfolding has_prefix trim_space internal_caa_task_prefix
is_reserved t = has_prefix (trim_space t.name) internal_caa_task_prefix

-- The records that a tag of the configuration demands.
unfoldable pub caa_tag_records : Text → Option (List Text) → List Text
caa_tag_records tag none = []
caa_tag_records tag (some []) = (codes "0 " ++ (tag ++ codes " \";\"")) ∷ []
caa_tag_records tag (some (v ∷ vs)) =
    map (λ value. codes "0 " ++ (tag ++ (codes " \"" ++ (value ++ codes "\"")))) (v ∷ vs)

unfoldable pub expected_caa : CaaConfig → List Text
unfolding caa_tag_records
expected_caa caa =
    caa_tag_records (codes "issue") caa.issue
    ++ (caa_tag_records (codes "issuewild") caa.issue_wild
        ++ caa_tag_records (codes "issuemail") caa.issue_mail)

unfoldable pub caa_task : Text → List Text → DnsTask
unfolding internal_caa_task_prefix
caa_task domain expected = record {
  domain_caa = true;
  hostname = domain;
  name = internal_caa_task_prefix ++ domain;
  record_type = codes "CAA";
  expected = some expected;
  match_type = [];
  custom_resolver = [];
}

-- The task that a domain adds, if its CAA section demands a record.
unfoldable pub caa_tasks : DomainConfig → List DnsTask
unfolding expected_caa caa_task
caa_tasks d = elim d.caa [
  | none ↦ []
  | some caa ↦ if is_empty (expected_caa caa) then [] else caa_task d.domain (expected_caa caa) ∷ []
]

module _ (u : Unicode) (rules : NameRules) where
  -- The loop over the domains, with the tasks so far.
  unfoldable pub normalize_domains :
      List DomainConfig
      → KeySet Text
      → KeySet Text
      → List DnsTask
      → Result (List DomainConfig × List DnsTask)
  normalize_domains [] seen_domains seen_names tasks = accept ([], tasks)
  normalize_domains (d ∷ ds) seen_domains seen_names tasks =
      normalize_domain_config u rules d seen_domains seen_names >>= λ n.
      normalize_domains ds n.domains n.names (tasks ++ caa_tasks n.domain) >>= λ r.
      accept (n.domain ∷ r.0, r.1)

  module _ (net : Net) (formats : RecordFormats) where
    unfoldable pub normalize_tasks : List DnsTask → KeySet Text → Result (List DnsTask)
    normalize_tasks [] seen = accept []
    normalize_tasks (t ∷ ts) seen = normalize_dns_task u rules net formats t seen >>= λ r.
        normalize_tasks ts r.1 >>= λ rest. accept (r.0 ∷ rest)

    unfoldable pub normalize_configured_checks : AppConfig → Result AppConfig
    normalize_configured_checks config =
        unless (not (any is_reserved config.dns_records)) reserved_dns_name (
          normalize_domains config.domains [] [] config.dns_records >>= λ r.
          normalize_tasks r.1 [] >>= λ tasks.
          accept (record config { domains = r.0; dns_records = tasks }))

    unfoldable pub compile_raw_config : AppConfig → Result AppConfig
    compile_raw_config raw = validate_config_endpoints u net raw >>= λ config.
        normalize_configured_checks config >>= λ checked.
        accept (apply_loop_interval_bounds checked)
