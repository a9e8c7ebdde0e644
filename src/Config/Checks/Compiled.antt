-- ===== src/Config/Checks/Compiled.antt =====
-- The configuration that compileRawConfig returns.
use domain_monitor.Base.{
  ℕ, ◌*◌, ◌^◌, ◌≤◌, ◌≡◌, refl, ◌∙◌, ap, sym, subst, ◌⊎◌, inl, inr, Bool, true, not, ◌||◌, List, [],
  ◌∷◌, ◌++◌, map, arith, is_empty, all, any, contains, distinct, length, Option-cases, Bool-cases,
}
use domain_monitor.Text.{Text, text_eq, text_beq_iff, Unicode, trim_space}
use domain_monitor.Types.Float.{Float64, pos, negsuc}
use domain_monitor.Types.Portfolio.{names}
use domain_monitor.Types.Config.{internal_caa_task_prefix, DomainConfig, DnsTask, AppConfig}
use domain_monitor.Config.Result.{
  Result-cases, accept, bind-accepted, accept-injective, unless-accepted, reserved_dns_name,
}
use domain_monitor.Config.Domain.{NameRules, valid_name}
use domain_monitor.Config.Endpoints.{
  Net, validate_notification_endpoints, validate_config_endpoints, valid_resolver_endpoints,
  min_loop_interval_days, max_loop_interval_days, default_loop_interval_days, float_less,
  bounded_interval, clamp_days, apply_loop_interval_bounds,
}
use domain_monitor.Config.Task.{RecordFormats}
use domain_monitor.Config.Checks.{
  is_reserved, caa_task, caa_tasks, expected_caa, normalize_domains, normalize_tasks,
  normalize_configured_checks, compile_raw_config,
}
use domain_monitor.Config.Checks.Accepted.{
  titles, task_names, all_caa_tasks, normalize_domains-Portfolio, normalize_tasks-names,
}

-- The name of the task that a domain adds.
abbrev pub caa_task_name : DomainConfig → Text
caa_task_name d = trim_space (internal_caa_task_prefix ++ d.domain)

caa_tasks-cases :
    (d : DomainConfig)
    → (caa_tasks d ≡ [])
      ⊎ ((t : DnsTask) × (caa_tasks d ≡ t ∷ []) × (trim_space t.name ≡ caa_task_name d))
unfolding caa_tasks caa_task
caa_tasks-cases d = elim (Option-cases d.caa) [
  | inl e ↦ inl (rw e refl)
  | inr (caa, e) ↦ elim (Bool-cases (is_empty (expected_caa caa))) [
    | inl h ↦ inl (rw (e, h) refl)
    | inr h ↦ inr (caa_task d.domain (expected_caa caa), rw (e, h) refl, refl)
  ]
]

-- Whether a domain that demands CAA records has a task for them.
abbrev pub has_caa_task : List Text → DomainConfig → Bool
has_caa_task tasks d = is_empty (caa_tasks d) || contains tasks (caa_task_name d)

all-has_caa_task :
    (ds : List DomainConfig) (tasks : List Text)
    → ((x : Text)
        → contains (map trim_space (task_names (all_caa_tasks ds))) x ≡ true
        → contains tasks x ≡ true)
    → all (has_caa_task tasks) ds ≡ true
unfolding all contains
all-has_caa_task [] tasks h = refl
all-has_caa_task (d ∷ ds) tasks h = elim (caa_tasks-cases d) [
  | inl e ↦ ground (arith, e, all-has_caa_task ds tasks (λ x p. h x (rw e p)))
  | inr (t, e, en) ↦
      let rest = map trim_space (task_names (all_caa_tasks ds)) in
      let sub : (x : Text)
          → contains (trim_space t.name ∷ rest) x ≡ true
          → contains tasks x ≡ true =
        λ x p. h x (rw e p) in
      ground (
        arith,
        sub (caa_task_name d),
        text_beq_iff (trim_space t.name) (caa_task_name d),
        en,
        all-has_caa_task ds tasks (λ x p. sub x (ground (arith, p))),
      )
]

-- What the first step leaves as it is, and the number of resolvers that it allows.
validate_config_endpoints-accepted :
    (u : Unicode) (net : Net) (raw : AppConfig) {config : AppConfig}
    → validate_config_endpoints u net raw ≡ accept config
    → (config.domains ≡ raw.domains)
      × (length config.resolvers ≤ 9)
      × (valid_resolver_endpoints net config.resolvers ≡ true)
unfolding validate_config_endpoints
validate_config_endpoints-accepted u net raw h =
    elim (Result-cases (validate_notification_endpoints net u raw.notifications)) [
      | inl (n, e) ↦ ground (arith, e)
      | inr (r, e) ↦ ground (arith, e)
    ]

-- Go's `a <= b` on floats.
abbrev pub float_at_most : Float64 → Float64 → Bool
float_at_most a b = not (float_less b a)

clamp_days_bounds :
    (low usual high : ℕ) (days : Float64)
    → low ≤ usual
    → usual ≤ high
    → let c = clamp_days (pos low) (pos usual) (pos high) days in
      (float_at_most (pos low) c ≡ true) × (float_at_most c (pos high) ≡ true)
unfolding clamp_days
clamp_days_bounds low usual high (pos n) h k = ground arith
clamp_days_bounds low usual high (negsuc n) h k = ground arith

bounded_interval_bounds :
    (days : Float64)
    → (float_at_most min_loop_interval_days (bounded_interval days) ≡ true)
      × (float_at_most (bounded_interval days) max_loop_interval_days ≡ true)
unfolding bounded_interval min_loop_interval_days max_loop_interval_days default_loop_interval_days
bounded_interval_bounds days =
    clamp_days_bounds (2 ^ 1071) (2 ^ 1072) (365 * 2 ^ 1074) days (omega arith) (omega arith)

-- What the checks leave behind.
abbrev pub Checked : Unicode → NameRules → AppConfig → Type 0
Checked u rules config =
    (distinct (names config.domains) ≡ true)
    × (all (valid_name u rules) (names config.domains) ≡ true)
    × (distinct (titles config.domains) ≡ true)
    × (distinct (task_names config.dns_records) ≡ true)
    × (all (has_caa_task (task_names config.dns_records)) config.domains ≡ true)

contains-append_right :
    (xs ys : List Text) (x : Text) → contains ys x ≡ true → contains (xs ++ ys) x ≡ true
unfolding contains
contains-append_right [] ys x h = h
contains-append_right (z ∷ xs) ys x h = ground (arith, contains-append_right xs ys x h)

trimmed_names-append :
    (xs ys : List DnsTask)
    → map trim_space (task_names (xs ++ ys))
      ≡ map trim_space (task_names xs) ++ map trim_space (task_names ys)
trimmed_names-append [] ys = refl
trimmed_names-append (x ∷ xs) ys = ap (λ t. trim_space x.name ∷ t) (trimmed_names-append xs ys)

normalize_configured_checks-accepted :
    (u : Unicode) (rules : NameRules) (net : Net) (formats : RecordFormats) (raw : AppConfig)
    {config : AppConfig}
    → normalize_configured_checks u rules net formats raw ≡ accept config
    → Checked u rules config × (config.resolvers ≡ raw.resolvers)
unfolding normalize_configured_checks
normalize_configured_checks-accepted u rules net formats raw h =
    let h0 = unless-accepted (not (any is_reserved raw.dns_records)) reserved_dns_name _ h in
    let (r, e1, h1) =
      bind-accepted (normalize_domains u rules raw.domains [] [] raw.dns_records) _ h0 in
    let (tasks, e2, h2) = bind-accepted (normalize_tasks u rules net formats r.1 []) _ h1 in
    let (p, added) = normalize_domains-Portfolio u rules raw.domains [] [] raw.dns_records e1 in
    let (same, apart, new) = normalize_tasks-names u rules net formats r.1 [] e2 in
    let found : task_names tasks
        ≡ map trim_space (task_names raw.dns_records)
          ++ map trim_space (task_names (all_caa_tasks r.0)) =
      same
      ∙ ap (λ ts. map trim_space (task_names ts)) added
      ∙ trimmed_names-append raw.dns_records (all_caa_tasks r.0) in
    let covered = all-has_caa_task r.0 (task_names tasks) (λ x m.
      subst (λ ns. contains ns x ≡ true) (sym found)
        (contains-append_right (map trim_space (task_names raw.dns_records))
          (map trim_space (task_names (all_caa_tasks r.0))) x m)) in
    subst (λ c. Checked u rules c × (c.resolvers ≡ raw.resolvers)) (accept-injective h2)
      ((p.apart, p.valid, p.apart_titles, apart, covered), refl)

-- For whatever was read from a file, a configuration that is accepted has domains that are pairwise
-- different and valid, under names that are pairwise different; DNS tasks under pairwise different
-- names, among them one for each domain whose CAA section demands a record; at most nine resolvers,
-- each of which is valid; and an interval from an eighth of a day to 365 days.
pub compile_raw_config-accepted :
    (u : Unicode) (rules : NameRules) (net : Net) (formats : RecordFormats) (raw config : AppConfig)
    → compile_raw_config u rules net formats raw ≡ accept config
    → Checked u rules config
      × (length config.resolvers ≤ 9)
      × (valid_resolver_endpoints net config.resolvers ≡ true)
      × (float_at_most min_loop_interval_days config.loop_interval_days ≡ true)
      × (float_at_most config.loop_interval_days max_loop_interval_days ≡ true)
unfolding compile_raw_config apply_loop_interval_bounds
compile_raw_config-accepted u rules net formats raw config h =
    let (ready, e1, h1) = bind-accepted (validate_config_endpoints u net raw) _ h in
    let (checked, e2, h2) =
      bind-accepted (normalize_configured_checks u rules net formats ready) _ h1 in
    let (_, few, valid) = validate_config_endpoints-accepted u net raw e1 in
    let ((a, b, c, d, e), same) =
      normalize_configured_checks-accepted u rules net formats ready e2 in
    let (low, high) = bounded_interval_bounds checked.loop_interval_days in
    subst
      (λ (k : AppConfig).
        Checked u rules k
        × (length k.resolvers ≤ 9)
        × (valid_resolver_endpoints net k.resolvers ≡ true)
        × (float_at_most min_loop_interval_days k.loop_interval_days ≡ true)
        × (float_at_most k.loop_interval_days max_loop_interval_days ≡ true))
      (accept-injective h2)
      (
        (a, b, c, d, e),
        subst (λ rs. length rs ≤ 9) (sym same) few,
        subst (λ rs. valid_resolver_endpoints net rs ≡ true) (sym same) valid,
        low,
        high,
      )
