-- ===== src/Cycle/Store/Kept.antt =====
-- Where the result of each DNS task is found after a cycle.
use domain_monitor.Base.{
  ℕ, zero, suc, ◌≡◌, refl, ap, ◌∙◌, inl, inr, true, false, not, ◌&&◌, ◌||◌, List, [], ◌∷◌, nat_eq,
  some, arith, if◌then◌else◌, Option-cases, Bool-cases, is_empty, is_some, get_elem?, contains,
  distinct, beq_refl, lookup, lookup-insert,
}
use domain_monitor.Text.{Text, text_beq, text_beq_iff, text_eq, Unicode}
use domain_monitor.Types.Status.{unknown, same_status}
use domain_monitor.Types.Config.{DnsTask, AppConfig}
use domain_monitor.Types.Results.{DnsSnapshot, CheckState}
use domain_monitor.Dns.Records.{evaluate_dns}
use domain_monitor.Cycle.Expired.Dropped.{lookup_optional}
use domain_monitor.Cycle.Store.Active.{
  result_names, names_of, evaluate_dns_check-name, dns_results-distinct, dns_results-at,
}
use domain_monitor.Cycle.Store.Policy.{is_policy, policy_owner, policies_apart}
use domain_monitor.Cycle.Store.{
  DnsResult, caa_result, evaluate_dns_check, store_dns_result_value, store_caa, store_dns_result,
  dns_results, store_dns_results, evaluate_dns_tasks,
}

contains_result :
    (results : List DnsResult) (i : ℕ) (r : DnsResult)
    → get_elem? results i ≡ some r
    → contains (result_names results) r.name ≡ true
unfolding contains
contains_result [] i r at = cc at
contains_result (q ∷ results) zero r at = ground (arith, at, beq_refl r.name)
contains_result (q ∷ results) (suc i) r at = ground (arith, contains_result results i r at)

result_apart :
    (q r : DnsResult) (results : List DnsResult) (i : ℕ)
    → get_elem? results i ≡ some r
    → contains (result_names results) q.name ≡ false
    → text_beq q.name r.name ≡ false
result_apart q r results i at h = elim (Bool-cases (text_beq q.name r.name)) [
  | inl e ↦ ground (
    arith,
    ap (contains (result_names results)) ((text_beq_iff q.name r.name).0 e),
    contains_result results i r at,
    h,
  )
  | inr e ↦ e
]

module _ (u : Unicode) where
  store_dns_result-dns :
      (r : DnsResult) (state : CheckState) (x : Text)
      → lookup x (store_dns_result u r state).dns ≡ (
          if not (is_policy r.name || same_status r.state.status unknown || is_empty r.name)
            && text_beq r.name x
          then some r.state
          else lookup x state.dns)
  unfolding store_dns_result store_dns_result_value store_caa
  store_dns_result-dns r state x =
      ground (arith, lookup-insert r.name x r.state state.dns, Option-cases state.caa)

  store_dns_result-caa :
      (r : DnsResult) (state : CheckState) (x : Text)
      → is_some state.caa ≡ true
      → (is_some (store_dns_result u r state).caa ≡ true)
        × (lookup_optional x (store_dns_result u r state).caa ≡ (
            if is_policy r.name && text_beq (policy_owner r.name) x
            then some (caa_result u r.state)
            else lookup_optional x state.caa))
  unfolding store_dns_result store_dns_result_value store_caa lookup_optional
  store_dns_result-caa r state x h = elim (Option-cases state.caa) [
    | inl n ↦ ground (arith, h, n)
    | inr (m, n) ↦ ground (arith, n, lookup-insert (policy_owner r.name) x (caa_result u r.state) m)
  ]

  store_dns_results-other :
      (results : List DnsResult) (state : CheckState) (x : Text)
      → contains (result_names results) x ≡ false
      → lookup x (store_dns_results u results state).dns ≡ lookup x state.dns
  unfolding store_dns_results contains
  store_dns_results-other [] state x h = refl
  store_dns_results-other (r ∷ results) state x h = ground (
    arith,
    h,
    store_dns_results-other results (store_dns_result u r state) x,
    store_dns_result-dns r state x,
  )

  store_dns_results-caa_other :
      (results : List DnsResult) (state : CheckState) (n : Text)
      → is_policy n ≡ true
      → is_some state.caa ≡ true
      → contains (result_names results) n ≡ false
      → lookup_optional (policy_owner n) (store_dns_results u results state).caa
        ≡ lookup_optional (policy_owner n) state.caa
  unfolding store_dns_results contains
  store_dns_results-caa_other [] state n p h c = refl
  store_dns_results-caa_other (r ∷ results) state n p h c =
      let (there, at) = store_dns_result-caa r state (policy_owner n) h in
      store_dns_results-caa_other results (store_dns_result u r state) n p there (ground (arith, c))
      ∙ ground (arith, at, policies_apart r.name n p (ground (arith, c)))

  stored_dns :
      (results : List DnsResult) (state : CheckState) (i : ℕ) (r : DnsResult)
      → get_elem? results i ≡ some r
      → distinct (result_names results) ≡ true
      → lookup r.name (store_dns_results u results state).dns ≡ (
          if is_policy r.name || same_status r.state.status unknown || is_empty r.name
          then lookup r.name state.dns
          else some r.state)
  unfolding store_dns_results distinct
  stored_dns [] state i r at d = cc at
  stored_dns (q ∷ results) state zero r at d = ground (
    arith,
    at,
    d,
    beq_refl q.name,
    store_dns_results-other results (store_dns_result u q state) q.name,
    store_dns_result-dns q state q.name,
  )
  stored_dns (q ∷ results) state (suc i) r at d =
      let apart = result_apart q r results i at (ground (arith, d)) in
      stored_dns results (store_dns_result u q state) i r at (ground (arith, d))
      ∙ ground (arith, apart, store_dns_result-dns q state r.name)

  stored_caa :
      (results : List DnsResult) (state : CheckState) (i : ℕ) (r : DnsResult)
      → get_elem? results i ≡ some r
      → distinct (result_names results) ≡ true
      → is_some state.caa ≡ true
      → is_policy r.name ≡ true
      → lookup_optional (policy_owner r.name) (store_dns_results u results state).caa
        ≡ some (caa_result u r.state)
  unfolding store_dns_results distinct
  stored_caa [] state i r at d h p = cc at
  stored_caa (q ∷ results) state zero r at d h p =
      let same : q ≡ r = ground (arith, at) in
      let policy : is_policy q.name ≡ true = rw same p in
      let (there, stored) = store_dns_result-caa q state (policy_owner q.name) h in
      let kept =
        store_dns_results-caa_other results (store_dns_result u q state) q.name policy there
          (ground (arith, d)) in
      rw (← same) (kept ∙ ground (arith, stored, policy, beq_refl (policy_owner q.name)))
  stored_caa (q ∷ results) state (suc i) r at d h p =
      stored_caa results (store_dns_result u q state) i r at (ground (arith, d))
        (store_dns_result-caa q state (policy_owner r.name) h).0 p

  evaluate_dns_known :
      (t : DnsTask) (s : DnsSnapshot)
      → same_status (evaluate_dns_check u t s).state.status unknown ≡ false
  unfolding evaluate_dns_check evaluate_dns
  evaluate_dns_known t s = ground arith

  -- Where the configured tasks have different names and no task is active twice: the result of the
  -- evidence at every position of the active tasks is stored for the task with the index that stands at
  -- this position. If the task stands for a CAA policy, and the map for CAA results has been made, the
  -- result is found after all tasks under the domain among the CAA results, and the DNS results of its
  -- name are as they were. If it does not, and has a name, its result is found under the name among the
  -- DNS results.
  pub evaluate_dns_tasks-lookup :
      (cfg : AppConfig) (active : List ℕ) (evidence : List DnsSnapshot) (state : CheckState)
      (i k : ℕ) (t : DnsTask) (s : DnsSnapshot)
      → distinct (names_of cfg.dns_records) ≡ true
      → distinct active ≡ true
      → get_elem? active i ≡ some k
      → get_elem? cfg.dns_records k ≡ some t
      → get_elem? evidence i ≡ some s
      → is_empty t.name ≡ false
      → (not (is_policy t.name) || is_some state.caa) ≡ true
      → let after = evaluate_dns_tasks u cfg active evidence state in
        let result = (evaluate_dns_check u t s).state in
        (lookup t.name after.dns
          ≡ (if is_policy t.name then lookup t.name state.dns else some result))
        × ((if is_policy t.name
              then lookup_optional (policy_owner t.name) after.caa
              else some (caa_result u result))
            ≡ some (caa_result u result))
  unfolding evaluate_dns_tasks
  evaluate_dns_tasks-lookup cfg active evidence state i k t s d h ai at ei named made =
      let results = dns_results u cfg active evidence in
      let r = evaluate_dns_check u t s in
      let (p, stands) = dns_results-at u cfg active evidence i k t s ai at ei in
      let apart = dns_results-distinct u cfg active evidence d h in
      let same = evaluate_dns_check-name u t s in
      elim (Bool-cases (is_policy t.name)) [
        | inl e ↦ (
          ground (arith, stored_dns results state p r stands apart, same, e),
          ground (arith, stored_caa results state p r stands apart, same, e, made),
        )
        | inr e ↦ (
          ground (
            arith,
            stored_dns results state p r stands apart,
            evaluate_dns_known t s,
            same,
            named,
            e,
          ),
          ground (arith, e),
        )
      ]
