-- ===== src/Cycle/Store/Active.antt =====
-- The results of the active DNS tasks, by the indices of the tasks.
use domain_monitor.Base.{
  ℕ, zero, suc, ◌≡◌, refl, ap, inl, inr, true, false, List, [], ◌∷◌, map, some, none, arith, ==_iff,
  nat_eq, Option-cases, Bool-cases, get_elem?, contains, distinct, beq_refl,
}
use domain_monitor.Text.{Text, text_beq, text_beq_iff, text_eq, Unicode}
use domain_monitor.Types.Config.{DnsTask, AppConfig}
use domain_monitor.Types.Results.{DnsSnapshot}
use domain_monitor.Cycle.Store.{DnsResult, evaluate_dns_check, dns_results}

abbrev pub result_names : List DnsResult → List Text
result_names results = map (λ (r : DnsResult). r.name) results

abbrev pub names_of : List DnsTask → List Text
names_of tasks = map (λ (t : DnsTask). t.name) tasks

contains_task :
    (tasks : List DnsTask) (k : ℕ) (t : DnsTask)
    → get_elem? tasks k ≡ some t
    → contains (names_of tasks) t.name ≡ true
unfolding contains
contains_task [] k t at = cc at
contains_task (q ∷ tasks) zero t at = ground (arith, at, beq_refl t.name)
contains_task (q ∷ tasks) (suc k) t at = ground (arith, contains_task tasks k t at)

-- A name that is not among those of the tasks is that of no task.
task_apart :
    (n : Text) (tasks : List DnsTask) (k : ℕ) (t : DnsTask)
    → get_elem? tasks k ≡ some t
    → contains (names_of tasks) n ≡ false
    → text_beq n t.name ≡ false
task_apart n tasks k t at h = elim (Bool-cases (text_beq n t.name)) [
  | inl e ↦ ground (
    arith,
    ap (contains (names_of tasks)) ((text_beq_iff n t.name).0 e),
    contains_task tasks k t at,
    h,
  )
  | inr e ↦ e
]

-- Where the names are different, a task has one index.
one_index :
    (tasks : List DnsTask) (j k : ℕ) (q t : DnsTask)
    → get_elem? tasks j ≡ some q
    → get_elem? tasks k ≡ some t
    → distinct (names_of tasks) ≡ true
    → text_beq q.name t.name ≡ true
    → j ≡ k
unfolding distinct
one_index [] j k q t aj ak d e = cc aj
one_index (p ∷ tasks) zero zero q t aj ak d e = refl
one_index (p ∷ tasks) zero (suc k) q t aj ak d e =
    ground (arith, aj, e, task_apart p.name tasks k t ak (ground (arith, d)))
one_index (p ∷ tasks) (suc j) zero q t aj ak d e = ground (
  arith,
  ak,
  e,
  text_beq_iff q.name t.name,
  text_beq_iff t.name q.name,
  task_apart p.name tasks j q aj (ground (arith, d)),
)
one_index (p ∷ tasks) (suc j) (suc k) q t aj ak d e =
    ap suc (one_index tasks j k q t aj ak (ground (arith, d)) e)

module _ (u : Unicode) where
  pub evaluate_dns_check-name :
      (t : DnsTask) (s : DnsSnapshot) → (evaluate_dns_check u t s).name ≡ t.name
  unfolding evaluate_dns_check
  evaluate_dns_check-name t s = refl

  dns_results-skip :
      (cfg : AppConfig) (j : ℕ) (active : List ℕ) (s : DnsSnapshot) (evidence : List DnsSnapshot)
      → get_elem? cfg.dns_records j ≡ none
      → dns_results u cfg (j ∷ active) (s ∷ evidence) ≡ dns_results u cfg active evidence
  unfolding dns_results
  dns_results-skip cfg j active s evidence n = ground (arith, n)

  dns_results-take :
      (cfg : AppConfig) (j : ℕ) (active : List ℕ) (s : DnsSnapshot) (evidence : List DnsSnapshot)
      (q : DnsTask)
      → get_elem? cfg.dns_records j ≡ some q
      → dns_results u cfg (j ∷ active) (s ∷ evidence)
        ≡ evaluate_dns_check u q s ∷ dns_results u cfg active evidence
  unfolding dns_results
  dns_results-take cfg j active s evidence q n = ground (arith, n)

  dns_results-absent :
      (cfg : AppConfig) (active : List ℕ) (evidence : List DnsSnapshot) (k : ℕ) (t : DnsTask)
      → get_elem? cfg.dns_records k ≡ some t
      → distinct (names_of cfg.dns_records) ≡ true
      → contains active k ≡ false
      → contains (result_names (dns_results u cfg active evidence)) t.name ≡ false
  unfolding dns_results contains
  dns_results-absent cfg [] evidence k t at d h = refl
  dns_results-absent cfg (j ∷ active) [] k t at d h = refl
  dns_results-absent cfg (j ∷ active) (s ∷ evidence) k t at d h =
      let rest = dns_results-absent cfg active evidence k t at d (ground (arith, h)) in
      elim (Option-cases (get_elem? cfg.dns_records j)) [
        | inl n ↦ rw (dns_results-skip cfg j active s evidence n) rest
        | inr (q, n) ↦ elim (Bool-cases (text_beq q.name t.name)) [
          | inl e ↦ ground (arith, h, ==_iff j k, one_index cfg.dns_records j k q t n at d e)
          | inr e ↦
              rw (dns_results-take cfg j active s evidence q n)
                (ground (arith, rest, e, evaluate_dns_check-name q s))
        ]
      ]

  pub dns_results-distinct :
      (cfg : AppConfig) (active : List ℕ) (evidence : List DnsSnapshot)
      → distinct (names_of cfg.dns_records) ≡ true
      → distinct active ≡ true
      → distinct (result_names (dns_results u cfg active evidence)) ≡ true
  unfolding dns_results distinct
  dns_results-distinct cfg [] evidence d h = refl
  dns_results-distinct cfg (j ∷ active) [] d h = refl
  dns_results-distinct cfg (j ∷ active) (s ∷ evidence) d h =
      let rest = dns_results-distinct cfg active evidence d (ground (arith, h)) in
      elim (Option-cases (get_elem? cfg.dns_records j)) [
        | inl n ↦ rw (dns_results-skip cfg j active s evidence n) rest
        | inr (q, n) ↦
            let absent = dns_results-absent cfg active evidence j q n d (ground (arith, h)) in
            rw (dns_results-take cfg j active s evidence q n)
              (ground (arith, rest, absent, evaluate_dns_check-name q s))
      ]

  -- The result of a task that is active stands among the results.
  pub dns_results-at :
      (cfg : AppConfig) (active : List ℕ) (evidence : List DnsSnapshot) (i k : ℕ) (t : DnsTask)
      (s : DnsSnapshot)
      → get_elem? active i ≡ some k
      → get_elem? cfg.dns_records k ≡ some t
      → get_elem? evidence i ≡ some s
      → (p : ℕ) × (get_elem? (dns_results u cfg active evidence) p
          ≡ some (evaluate_dns_check u t s))
  unfolding dns_results
  dns_results-at cfg [] evidence i k t s ai at ei = cc ai
  dns_results-at cfg (j ∷ active) [] i k t s ai at ei = cc ei
  dns_results-at cfg (j ∷ active) (r ∷ evidence) zero k t s ai at ei =
      let same : j ≡ k = ground (arith, ai) in
      let shot : r ≡ s = ground (arith, ei) in
      let there : get_elem? cfg.dns_records j ≡ some t = rw same at in
      (zero, rw (dns_results-take cfg j active r evidence t there, shot) refl)
  dns_results-at cfg (j ∷ active) (r ∷ evidence) (suc i) k t s ai at ei =
      let (p, e) = dns_results-at cfg active evidence i k t s ai at ei in
      elim (Option-cases (get_elem? cfg.dns_records j)) [
        | inl n ↦ (p, rw (dns_results-skip cfg j active r evidence n) e)
        | inr (q, n) ↦ (suc p, rw (dns_results-take cfg j active r evidence q n) e)
      ]
