-- ===== src/Examples/Portfolio.antt =====
-- Examples for what is kept between cycles, the time of a cycle, and the prices.
use domain_monitor.Base.{
  ◌+◌, ◌*◌, ◌≡◌, refl, min, [], ◌∷◌, none, some, true, is_some, if◌then◌else◌, lookup, distinct,
  arith, Map,
}
use domain_monitor.Text.{Text, codes, ascii, text_eq, text_beq}
use domain_monitor.Types.Float.{pos}
use domain_monitor.Types.Status.{CheckStatus, ok, failed}
use domain_monitor.Cycle.Transitions.{
  status_at, next_status, log_state_transitions, log_state_transitions-lookup,
}
use domain_monitor.Cycle.Budget.{max_int64, saturating_work_duration, saturating_work_duration_lem}
use domain_monitor.Pricing.{
  Catalog, configured, entry_after, apply_portfolio_pricing, apply_portfolio_pricing-lookup,
}
use domain_monitor.Examples.Expired.{cfg, state}

abbrev current : Map Text CheckStatus
current = (codes "b", failed) ∷ (codes "a", ok) ∷ []

abbrev known : Map Text CheckStatus
known = (codes "b", ok) ∷ (codes "c", ok) ∷ []

log_state_transitions_runs : log_state_transitions (λ (s : CheckStatus). s) current known ≡ (
  record { target = codes "b"; before = ok; now = failed } ∷ [],
  (codes "b", failed) ∷ (codes "a", ok) ∷ [],
)
unfolding log_state_transitions text_beq domain_monitor.Base.sort domain_monitor.Base.retain
    domain_monitor.Notify.Order.compare_text lookup domain_monitor.Base.insert
log_state_transitions_runs = refl

log_state_transitions-lookup_example :
    lookup (codes "c") (log_state_transitions (λ (s : CheckStatus). s) current known).1 ≡ (
      if is_some (lookup (codes "c") current)
      then next_status
          (lookup (codes "c") known)
          (status_at (λ (s : CheckStatus). s) current (codes "c"))
      else none)
log_state_transitions-lookup_example =
    log_state_transitions-lookup (λ (s : CheckStatus). s) current known (codes "c")

saturating_work_duration_lem_example :
    saturating_work_duration 3 max_int64 5 ≡ min max_int64 (5 + 3 * max_int64)
saturating_work_duration_lem_example = saturating_work_duration_lem 3 max_int64 5 (omega arith)

abbrev suffix : Text → Text
suffix name = codes "org"

abbrev catalog : Catalog
catalog = (codes "org", pos 12) ∷ []

apply_portfolio_pricing-lookup_example :
    lookup (codes "b.a.org") (apply_portfolio_pricing ascii suffix cfg state (some catalog)).rdap
    ≡ entry_after ascii suffix
        (some catalog)
        (configured cfg.domains (codes "b.a.org"))
        (lookup (codes "b.a.org") state.rdap)
unfolding distinct text_beq
apply_portfolio_pricing-lookup_example =
    apply_portfolio_pricing-lookup ascii suffix cfg state (some catalog) (codes "b.a.org") refl
