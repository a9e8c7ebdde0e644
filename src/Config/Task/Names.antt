-- ===== src/Config/Task/Names.antt =====
-- What an accepted DNS task is called.
use domain_monitor.Base.{◌≡◌, ◌∙◌, arith, subst, false, List, [], KeySet, member, add}
use domain_monitor.Text.{Text, text_eq, Unicode, trim_space}
use domain_monitor.Types.Config.{DnsTask}
use domain_monitor.Config.Result.{accept, bind-accepted, accept-injective}
use domain_monitor.Config.Domain.{NameRules}
use domain_monitor.Config.Endpoints.{Net}
use domain_monitor.Config.Task.{
  RecordFormats, normalize_dns_task_identity, validate_dns_task_options, normalize_values,
  normalize_dns_task_expected, listed, normalize_dns_task,
}

module _ (u : Unicode) (rules : NameRules) where
  normalize_dns_task_identity-accepted :
      (t : DnsTask) (seen : KeySet Text) {r : DnsTask × KeySet Text}
      → normalize_dns_task_identity u rules t seen ≡ accept r
      → (r.0.name ≡ trim_space t.name)
        × (member (trim_space t.name) seen ≡ false)
        × (r.1 ≡ add (trim_space t.name) seen)
  unfolding normalize_dns_task_identity
  normalize_dns_task_identity-accepted t seen h = ground arith

  module _ (net : Net) (formats : RecordFormats) where
    validate_dns_task_options-name :
        (t : DnsTask) {r : DnsTask}
        → validate_dns_task_options u rules net formats t ≡ accept r
        → r.name ≡ t.name
    unfolding validate_dns_task_options
    validate_dns_task_options-name t h = ground arith

    normalize_dns_task_expected-name :
        (t : DnsTask) (raw : List Text) {r : DnsTask}
        → normalize_dns_task_expected u rules net formats t raw ≡ accept r
        → r.name ≡ t.name
    unfolding normalize_dns_task_expected
    normalize_dns_task_expected-name t raw h =
        let (kept, ek, h1) =
          bind-accepted (normalize_values u rules net formats t.record_type raw []) _ h in
        ground arith

    pub normalize_dns_task-accepted :
        (t : DnsTask) (seen : KeySet Text) {r : DnsTask × KeySet Text}
        → normalize_dns_task u rules net formats t seen ≡ accept r
        → (r.0.name ≡ trim_space t.name)
          × (member (trim_space t.name) seen ≡ false)
          × (r.1 ≡ add (trim_space t.name) seen)
    unfolding normalize_dns_task
    normalize_dns_task-accepted t seen h =
        let (named, e1, h1) = bind-accepted (normalize_dns_task_identity u rules t seen) _ h in
        let (checked, e2, h2) =
          bind-accepted (validate_dns_task_options u rules net formats named.0) _ h1 in
        let (done, e3, h3) =
          bind-accepted
            (normalize_dns_task_expected u rules net formats checked
              (listed u rules net formats checked.expected))
            _ h2 in
        let (a, b, c) = normalize_dns_task_identity-accepted t seen e1 in
        subst
          (λ (r : DnsTask × KeySet Text).
            (r.0.name ≡ trim_space t.name)
            × (member (trim_space t.name) seen ≡ false)
            × (r.1 ≡ add (trim_space t.name) seen))
          (accept-injective h3)
          (
            normalize_dns_task_expected-name checked (listed u rules net formats checked.expected)
                  e3
                ∙ validate_dns_task_options-name named.0 e2
                ∙ a,
            b,
            c,
          )
