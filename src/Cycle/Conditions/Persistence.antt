-- ===== src/Cycle/Conditions/Persistence.antt =====
-- The start of a condition over whole cycles: the loops over domains and records, and the pruning.
use domain_monitor.Base.{
  ℕ, ◌≡◌, ◌∙◌, inl, inr, true, List, [], ◌∷◌, some, arith, get_elem?, Option-cases, lookup,
  lookup-retain, All,
}
use domain_monitor.Types.Code.{ResultCode}
use domain_monitor.Types.Condition.{Time}
use domain_monitor.Types.Config.{DomainConfig, AppConfig}
use domain_monitor.Types.Results.{CheckState}
use domain_monitor.Cycle.Expired.{ActiveChecks}
use domain_monitor.Cycle.Conditions.{ConditionKey, key_eq, History}
use domain_monitor.Cycle.Conditions.Collect.{
  Progress, collect_domain_alerts, collect_active_domains, collect_dns, collect_active_records,
  result_at, is_live, prune_condition_history, prepare_conditions_and_alerts,
}
use domain_monitor.Cycle.Conditions.Live.{reports, entry}
use domain_monitor.Cycle.Conditions.Steps.{
  Kept, collect_rdap-Kept, collect_email-Kept, collect_caa-Kept, collect_dnssec-Kept,
  collect_ns_health-Kept, collect_dns-Kept,
}

module _ (key : ConditionKey) (code : ResultCode) (since now : Time) where
  collect_domain_alerts-Kept :
      (cfg : DomainConfig) (p : Progress)
      → Kept key code since now p
      → Kept key code since now (collect_domain_alerts now cfg p)
  unfolding collect_domain_alerts
  collect_domain_alerts-Kept cfg p v = collect_ns_health-Kept key code since now cfg _ (
      collect_dnssec-Kept key code since now cfg _ (
        collect_caa-Kept key code since now cfg _ (
          collect_email-Kept key code since now cfg _
            (collect_rdap-Kept key code since now cfg p v))))

  collect_active_domains-Kept :
      (cfg : AppConfig) (indices : List ℕ) (p : Progress)
      → Kept key code since now p
      → Kept key code since now (collect_active_domains now cfg indices p)
  unfolding collect_active_domains
  collect_active_domains-Kept cfg [] p v = v
  collect_active_domains-Kept cfg (i ∷ indices) p v =
      elim (Option-cases (get_elem? cfg.domains i)) [
        | inl n ↦ rw (n, collect_active_domains) (collect_active_domains-Kept cfg indices p v)
        | inr (d, n) ↦
            rw (n, collect_active_domains)
              (collect_active_domains-Kept cfg indices (collect_domain_alerts now d p)
                (collect_domain_alerts-Kept d p v))
      ]

  collect_active_records-Kept :
      (cfg : AppConfig) (indices : List ℕ) (p : Progress)
      → Kept key code since now p
      → Kept key code since now (collect_active_records now cfg indices p)
  unfolding collect_active_records
  collect_active_records-Kept cfg [] p v = v
  collect_active_records-Kept cfg (i ∷ indices) p v =
      elim (Option-cases (get_elem? cfg.dns_records i)) [
        | inl n ↦ rw (n, collect_active_records) (collect_active_records-Kept cfg indices p v)
        | inr (t, n) ↦
            rw (n, collect_active_records)
              (collect_active_records-Kept cfg indices (collect_dns now t p)
                (collect_dns-Kept key code since now t p v))
      ]

  reports-is_live :
      (state : CheckState) → reports code (result_at state key) ≡ true → is_live state key ≡ true
  unfolding is_live reports
  reports-is_live state h = elim (Option-cases (result_at state key)) [
    | inl n ↦ ground (arith, n, h)
    | inr (r, n) ↦ ground (arith, n, h)
  ]

  prepare_conditions_and_alerts-kept :
      (state : CheckState) (cfg : AppConfig) (active : ActiveChecks) (prev : History)
      → lookup key prev ≡ some (entry code since)
      → reports code (result_at state key) ≡ true
      → lookup key (prepare_conditions_and_alerts now state cfg active prev).prev
        ≡ some (entry code since)
  unfolding prepare_conditions_and_alerts prune_condition_history
  prepare_conditions_and_alerts-kept state cfg active prev there live =
      let start : Progress = record { alerts = []; state = state; prev = prev } in
      let p =
        collect_active_records now cfg active.dns_records
          (collect_active_domains now cfg active.domains start) in
      let v = collect_active_records-Kept cfg active.dns_records _ (
        collect_active_domains-Kept cfg active.domains start
          (record { there = there; live = live })) in
      lookup-retain (λ k. is_live p.state k) key p.prev
      ∙ ground (arith, reports-is_live p.state v.live, v.there)

-- What a cycle brings: its time, the state that the evaluation leaves, and what is configured.
pub record Cycle : Type 0 where
  pub now : Time
  pub state : CheckState
  pub cfg : AppConfig
  pub active : ActiveChecks

-- The history after several cycles.
unfoldable pub after_cycles : List Cycle → History → History
unfolding prepare_conditions_and_alerts
after_cycles [] prev = prev
after_cycles (c ∷ cycles) prev =
    after_cycles cycles (prepare_conditions_and_alerts c.now c.state c.cfg c.active prev).prev

-- In the state that the evaluation of the cycle leaves, the result of the key has a condition of the
-- code, and a status that raises alerts.
abbrev pub Reports : ConditionKey → ResultCode → Cycle → Type 0
Reports key code c = reports code (result_at c.state key) ≡ true

-- While the state of every cycle reports a condition of the same code for a check, the entry of the
-- history that has its start stays the same, through the reports of all checks and the pruning of each
-- cycle, whatever is active in it.
pub since_persists :
    (key : ConditionKey) (code : ResultCode) (since : Time) (cycles : List Cycle) (prev : History)
    → lookup key prev ≡ some (entry code since)
    → All (Reports key code) cycles
    → lookup key (after_cycles cycles prev) ≡ some (entry code since)
unfolding after_cycles
since_persists key code since [] prev there h = there
since_persists key code since (c ∷ cycles) prev there h =
    since_persists key code since cycles _
      (prepare_conditions_and_alerts-kept key code since c.now c.state c.cfg c.active prev there
        h.0)
      h.1
