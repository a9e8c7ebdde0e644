-- ===== src/Lookup/Delegation.antt =====
-- Public delegation against the configured nameservers: evaluateNameserverDelegation and
-- EvaluateNSDelegation in src/internal/monitor/lookup.go.
pub mod Agreement
use domain_monitor.Base.{
  ℕ, ◌≡◌, refl, Bool, true, false, not, ◌&&◌, ◌||◌, List, [], ◌∷◌, Option, none, some, arith, ◌==◌,
  if◌then◌else◌, is_empty, any, all, KeySet, member, add, member-add, Bool-cases, inl, inr,
}
use domain_monitor.Text.{Text, codes, text_beq, text_eq, Unicode}
use domain_monitor.Errors.{error_text}
use domain_monitor.Utils.{normalize_domain}
use domain_monitor.Types.Code
use domain_monitor.Types.Status.{CheckStatus, ok, failed, warning, same_status}
use domain_monitor.Types.Condition.{
  StateCondition, condition, ConditionTracker, new_tracker, promote,
}
use domain_monitor.Types.Config.{NameserverConfig, DomainConfig}
use domain_monitor.Types.Results.{NsDelegationSnapshot}

-- One observed nameserver: the case of the switch.
unfoldable pub judge_observed :
    KeySet Text → KeySet Text → Text → ConditionTracker → ConditionTracker
judge_observed hidden answering ns ct =
    if member ns hidden
    then promote ct failed Code.ns_hidden_exposed ns
    else if not (member ns answering)
    then promote ct failed Code.unauthorized_ns ns
    else ct

module _ (u : Unicode) where
  -- The sets `hidden` and `answering`: the configured names with the flag, and those without it.
  unfoldable pub configured_names : Bool → List NameserverConfig → KeySet Text → KeySet Text
  configured_names flag [] names = names
  configured_names flag (n ∷ ns) names = configured_names flag ns (
      if not flag && not n.hidden || flag && n.hidden
      then add (normalize_domain u n.hostname) names
      else names)

  -- The loop over the observed nameservers, with `liveNS`.
  unfoldable pub judge_all :
      KeySet Text
      → KeySet Text
      → List Text
      → KeySet Text
      → ConditionTracker
      → KeySet Text × ConditionTracker
  unfolding judge_observed
  judge_all hidden answering [] live ct = (live, ct)
  judge_all hidden answering (raw ∷ observed) live ct =
      let ns = normalize_domain u raw in
      judge_all hidden answering observed (if is_empty ns then live else add ns live)
        (if is_empty ns then ct else judge_observed hidden answering ns ct)

  -- The loop over the configured nameservers that must be observed.
  unfoldable pub judge_missing :
      List NameserverConfig → KeySet Text → ConditionTracker → ConditionTracker
  judge_missing [] live ct = ct
  judge_missing (n ∷ ns) live ct = judge_missing ns live (
      if not n.hidden && not (member (normalize_domain u n.hostname) live)
      then promote ct failed Code.expected_ns_missing n.hostname
      else ct)

  unfoldable pub evaluate_nameserver_delegation :
      List NameserverConfig → List Text → ConditionTracker → ConditionTracker
  unfolding configured_names judge_all judge_missing
  evaluate_nameserver_delegation configured observed ct =
      let hidden = configured_names true configured [] in
      let answering = configured_names false configured [] in
      let judged = judge_all hidden answering observed [] ct in
      if is_empty configured then ct else judge_missing configured judged.0 judged.1

  unfoldable pub evaluate_ns_delegation :
      DomainConfig → NsDelegationSnapshot → CheckStatus × StateCondition
  unfolding evaluate_nameserver_delegation
  evaluate_ns_delegation target snapshot = elim snapshot.err [
    | some e ↦ (failed, condition Code.dns_lookup_failed e.message)
    | none ↦
        let ct =
          evaluate_nameserver_delegation target.nameservers snapshot.nameservers new_tracker in
        if is_empty snapshot.nameservers
        then (failed, condition Code.dns_lookup_failed (codes "delegation returned no nameservers"))
        else (ct.status, ct.cond)
  ]

  -- The independent description: a name, normalised, is one of the configured ones of a kind.
  unfoldable pub is_configured : Bool → List NameserverConfig → Text → Bool
  is_configured flag configured ns =
      any
        (λ n.
          (not flag && not n.hidden || flag && n.hidden)
          && text_beq (normalize_domain u n.hostname) ns)
        configured

  unfoldable pub is_observed : List Text → Text → Bool
  is_observed observed ns =
      any (λ raw. not (is_empty (normalize_domain u raw)) && text_beq (normalize_domain u raw) ns)
        observed

  -- Every observed name that is not blank is one that should answer and not one to hide, and every
  -- name that should answer is observed.
  unfoldable pub delegation_agrees : List NameserverConfig → List Text → Bool
  unfolding is_configured is_observed
  delegation_agrees configured observed =
      all
        (λ raw.
          is_empty (normalize_domain u raw)
          || not (is_configured true configured (normalize_domain u raw))
            && is_configured false configured (normalize_domain u raw))
        observed
      && all (λ n. n.hidden || is_observed observed (normalize_domain u n.hostname)) configured
