-- ===== src/Config/Checks/Accepted.antt =====
-- What a configuration is that compileRawConfig accepts.
use domain_monitor.Base.{
  ◌≡◌, refl, ◌∙◌, ap, sym, subst, Bool, true, false, not, List, [], ◌∷◌, ◌++◌, map, arith, all,
  contains, distinct, KeySet, member, add, member-add, beq_comm,
}
use mathlib.Core.List.{append_assoc, append-nil}
use domain_monitor.Text.{Text, text_eq, Unicode, trim_space}
use domain_monitor.Types.Portfolio.{names}
use domain_monitor.Types.Config.{DomainConfig, DnsTask}
use domain_monitor.Config.Result.{accept, bind-accepted, accept-injective}
use domain_monitor.Config.Domain.{NameRules, valid_name, Normalized, normalize_domain_config}
use domain_monitor.Config.Domain.Names.{Fresh, normalize_domain_config-Fresh}
use domain_monitor.Config.Endpoints.{Net}
use domain_monitor.Config.Task.{RecordFormats, normalize_dns_task}
use domain_monitor.Config.Task.Names.{normalize_dns_task-accepted}
use domain_monitor.Config.Checks.{caa_tasks, normalize_domains, normalize_tasks}

-- No text of the list was seen.
abbrev pub unseen : KeySet Text → List Text → Bool
unseen seen xs = all (λ x. not (member x seen)) xs

unseen-add :
    (x : Text) (seen : KeySet Text) (xs : List Text)
    → unseen (add x seen) xs ≡ true
    → (contains xs x ≡ false) × (unseen seen xs ≡ true)
unfolding all contains
unseen-add x seen [] h = (refl, refl)
unseen-add x seen (y ∷ ys) h =
    ground (arith, unseen-add x seen ys, member-add x y seen, beq_comm x y)

abbrev pub titles : List DomainConfig → List Text
titles domains = map (λ (d : DomainConfig). d.name) domains

abbrev pub task_names : List DnsTask → List Text
task_names tasks = map (λ (t : DnsTask). t.name) tasks

abbrev pub all_caa_tasks : List DomainConfig → List DnsTask
all_caa_tasks [] = []
all_caa_tasks (d ∷ ds) = caa_tasks d ++ all_caa_tasks ds

-- Domains that were accepted from two sets of what was seen.
pub record Portfolio (u : Unicode) (rules : NameRules) (seen_domains seen_names : KeySet Text)
    (ds : List DomainConfig) : Type 0 where
  pub apart : distinct (names ds) ≡ true
  pub apart_titles : distinct (titles ds) ≡ true
  pub new : unseen seen_domains (names ds) ≡ true
  pub new_titles : unseen seen_names (titles ds) ≡ true
  pub valid : all (valid_name u rules) (names ds) ≡ true

module _ (u : Unicode) (rules : NameRules) where
  Portfolio-nil :
      {seen_domains seen_names : KeySet Text} → Portfolio u rules seen_domains seen_names []
  unfolding distinct all
  Portfolio-nil = record {
    apart = refl;
    apart_titles = refl;
    new = refl;
    new_titles = refl;
    valid = refl;
  }

  Portfolio-cons :
      {seen_domains seen_names : KeySet Text} (n : Normalized) (ds : List DomainConfig)
      → Fresh u rules seen_domains seen_names n
      → Portfolio u rules n.domains n.names ds
      → Portfolio u rules seen_domains seen_names (n.domain ∷ ds)
  unfolding distinct all
  Portfolio-cons {seen_domains} {seen_names} n ds f p =
      let new = subst (λ s. unseen s (names ds) ≡ true) f.domains_grow p.new in
      let new_titles = subst (λ s. unseen s (titles ds) ≡ true) f.names_grow p.new_titles in
      ground (
        arith,
        f.new_domain,
        f.new_name,
        f.is_valid,
        p.apart,
        p.apart_titles,
        p.valid,
        unseen-add n.domain.domain seen_domains (names ds) new,
        unseen-add n.domain.name seen_names (titles ds) new_titles,
      )

  pub normalize_domains-Portfolio :
      (ds : List DomainConfig) (seen_domains seen_names : KeySet Text) (tasks : List DnsTask)
      {r : List DomainConfig × List DnsTask}
      → normalize_domains u rules ds seen_domains seen_names tasks ≡ accept r
      → Portfolio u rules seen_domains seen_names r.0 × (r.1 ≡ tasks ++ all_caa_tasks r.0)
  unfolding normalize_domains
  normalize_domains-Portfolio [] seen_domains seen_names tasks h =
      subst
        (λ (r : List DomainConfig × List DnsTask).
          Portfolio u rules seen_domains seen_names r.0 × (r.1 ≡ tasks ++ all_caa_tasks r.0))
        (accept-injective h) (Portfolio-nil, sym (append-nil tasks))
  normalize_domains-Portfolio (d ∷ ds) seen_domains seen_names tasks h =
      let (n, en, h1) =
        bind-accepted (normalize_domain_config u rules d seen_domains seen_names) _ h in
      let (rest, er, h2) =
        bind-accepted (normalize_domains u rules ds n.domains n.names (tasks ++ caa_tasks n.domain))
          _ h1 in
      let f = normalize_domain_config-Fresh u rules d seen_domains seen_names en in
      let (p, added) =
        normalize_domains-Portfolio ds n.domains n.names (tasks ++ caa_tasks n.domain) er in
      subst
        (λ (r : List DomainConfig × List DnsTask).
          Portfolio u rules seen_domains seen_names r.0 × (r.1 ≡ tasks ++ all_caa_tasks r.0))
        (accept-injective h2)
        (
          Portfolio-cons n rest.0 f p,
          added ∙ append_assoc tasks (caa_tasks n.domain) (all_caa_tasks rest.0),
        )

  module _ (net : Net) (formats : RecordFormats) where
    pub normalize_tasks-names :
        (ts : List DnsTask) (seen : KeySet Text) {out : List DnsTask}
        → normalize_tasks u rules net formats ts seen ≡ accept out
        → (task_names out ≡ map trim_space (task_names ts))
          × (distinct (task_names out) ≡ true)
          × (unseen seen (task_names out) ≡ true)
    unfolding normalize_tasks distinct all
    normalize_tasks-names [] seen h =
        subst
          (λ out.
            (task_names out ≡ [])
            × (distinct (task_names out) ≡ true)
            × (unseen seen (task_names out) ≡ true))
          (accept-injective h) (refl, refl, refl)
    normalize_tasks-names (t ∷ ts) seen h =
        let (r, er, h1) = bind-accepted (normalize_dns_task u rules net formats t seen) _ h in
        let (rest, es, h2) = bind-accepted (normalize_tasks u rules net formats ts r.1) _ h1 in
        let (named, fresh, grown) = normalize_dns_task-accepted u rules net formats t seen er in
        let (same, apart, new) = normalize_tasks-names ts r.1 es in
        let new' =
          subst (λ s. unseen s (task_names rest) ≡ true) (grown ∙ ap (λ x. add x seen) (sym named))
            new in
        let (out, old) = unseen-add r.0.name seen (task_names rest) new' in
        let fresh' = ap (λ x. member x seen) named ∙ fresh in
        subst
          (λ out.
            (task_names out ≡ map trim_space (task_names (t ∷ ts)))
            × (distinct (task_names out) ≡ true)
            × (unseen seen (task_names out) ≡ true))
          (accept-injective h2)
          (cc (named, same), ground (arith, apart, out), ground (arith, fresh', old))
