-- ===== src/Examples/Store.antt =====
-- The results of DNS tasks at concrete values.
use domain_monitor.Base.{
  ℕ, ◌≡◌, refl, true, not, ◌||◌, is_some, arith, List, [], ◌∷◌, none, some, if◌then◌else◌, distinct,
  lookup,
}
use domain_monitor.Text.{Text, codes, text_beq, text_eq, ascii}
use domain_monitor.Types.Config.{AppConfig, DnsTask}
use domain_monitor.Types.Results.{DnsSnapshot, CheckState}
use domain_monitor.Config.Checks.{caa_task}
use domain_monitor.Cycle.Expired.Dropped.{lookup_optional}
use domain_monitor.Cycle.Store.{DnsResult, caa_result, evaluate_dns_check, evaluate_dns_tasks}
use domain_monitor.Cycle.Store.Active.{names_of}
use domain_monitor.Cycle.Store.Policy.{is_policy, policy_owner}
use domain_monitor.Cycle.Store.Kept.{evaluate_dns_tasks-lookup}
use domain_monitor.Examples.Expired.{cfg, state, task_named}

abbrev policy : DnsTask
policy = caa_task (codes "a.org") (codes "0 issue \"ca.org\"" ∷ [])

abbrev config : AppConfig
config = record cfg { dns_records = task_named (codes "www") (codes "www.a.org") ∷ policy ∷ [] }

abbrev answer : List Text → DnsSnapshot
answer records = record {
  records = records;
  expected_records = none;
  observations = [];
  err = none;
}

abbrev evidence : List DnsSnapshot
evidence =
    answer (codes "192.0.2.1" ∷ [])
    ∷ answer (codes "0 issue \"ca.org\"" ∷ codes "0 Issue \"other.org\"" ∷ [])
    ∷ []

abbrev active : List ℕ
active = 0 ∷ 1 ∷ []

abbrev before : CheckState
before = record state { caa = some [] }

abbrev judged : DnsResult
judged =
    evaluate_dns_check ascii policy
      (answer (codes "0 issue \"ca.org\"" ∷ codes "0 Issue \"other.org\"" ∷ []))

unknown_authority :
    ((caa_result ascii judged.state).issue ≡ codes "ca.org" ∷ codes "other.org" ∷ [])
    × ((caa_result ascii judged.state).unknown_cas ≡ codes "other.org" ∷ [])
unfolding caa_result evaluate_dns_check caa_task text_beq domain_monitor.Base.contains
    domain_monitor.Base.any
unknown_authority = (refl, refl)

policy_made : (not (is_policy policy.name) || is_some before.caa) ≡ true
policy_made = ground arith

names_differ : distinct (names_of config.dns_records) ≡ true
unfolding distinct text_beq caa_task
names_differ = refl

evaluate_dns_tasks-lookup_example :
    let after = evaluate_dns_tasks ascii config active evidence before in
    (lookup policy.name after.dns
      ≡ (if is_policy policy.name then lookup policy.name before.dns else some judged.state))
    × ((if is_policy policy.name
          then lookup_optional (policy_owner policy.name) after.caa
          else some (caa_result ascii judged.state))
        ≡ some (caa_result ascii judged.state))
unfolding caa_task distinct
evaluate_dns_tasks-lookup_example =
    evaluate_dns_tasks-lookup ascii config active evidence before 1 1 policy
      (answer (codes "0 issue \"ca.org\"" ∷ codes "0 Issue \"other.org\"" ∷ [])) names_differ refl
      refl refl refl refl policy_made
