-- ===== src/Lookup/Delegation/Agreement.antt =====
-- The delegation check against its description.
use domain_monitor.Base.{
  ◌==◌, inl, inr, Bool-cases, ◌≡◌, refl, Bool, true, false, not, ◌&&◌, ◌||◌, List, [], ◌∷◌, none,
  arith, if◌then◌else◌, is_empty, any, all, KeySet, member, add, member-add, lookup,
}
use domain_monitor.Text.{Text, text_eq, Unicode}
use domain_monitor.Utils.{normalize_domain}
use domain_monitor.Types.Code
use domain_monitor.Types.Code.{ResultCode}
use domain_monitor.Types.Status.{ok, failed, same_status}
use domain_monitor.Types.Condition.{ConditionTracker, new_tracker, promote}
use domain_monitor.Types.Config.{NameserverConfig, DomainConfig}
use domain_monitor.Types.Results.{NsDelegationSnapshot}
use domain_monitor.Lookup.Delegation.{
  configured_names, judge_observed, judge_all, judge_missing, evaluate_nameserver_delegation,
  evaluate_ns_delegation, is_configured, is_observed, delegation_agrees,
}

-- Whether nothing has been found wrong so far, and whether a failure has.
abbrev pub is_ok : ConditionTracker → Bool
is_ok ct = same_status ct.status ok

abbrev pub has_failed : ConditionTracker → Bool
has_failed ct = same_status ct.status failed

pub has_failed-promote :
    (ct : ConditionTracker) (code : ResultCode) (target : Text)
    → has_failed (promote ct failed code target) ≡ true
unfolding promote
has_failed-promote ct code target = ground arith

if_keeps :
    (P : ConditionTracker → Type 0) (b : Bool) {ct next : ConditionTracker}
    → P ct
    → P next
    → P (if b then ct else next)
if_keeps P true p q = p
if_keeps P false p q = q

module _ (u : Unicode) where
  member-configured_names :
      (flag : Bool) (ns : List NameserverConfig) (names : KeySet Text) (x : Text)
      → member x (configured_names u flag ns names) ≡ (member x names || is_configured u flag ns x)
  unfolding configured_names is_configured any
  member-configured_names flag [] names x = ground arith
  member-configured_names flag (n ∷ ns) names x = ground (
    arith,
    member-add (normalize_domain u n.hostname) x names,
    member-configured_names flag ns names x,
    member-configured_names flag ns (add (normalize_domain u n.hostname) names) x,
  )

  -- The live names after the loop are the observed ones.
  member-judge_all :
      (hidden answering : KeySet Text) (observed : List Text) (live : KeySet Text)
      (ct : ConditionTracker) (x : Text)
      → member x (judge_all u hidden answering observed live ct).0
        ≡ (member x live || is_observed u observed x)
  unfolding judge_all is_observed any
  member-judge_all hidden answering [] live ct x = ground arith
  member-judge_all hidden answering (raw ∷ observed) live ct x =
      let ns = normalize_domain u raw in
      let judged = judge_observed hidden answering ns ct in
      ground (
        arith,
        member-add ns x live,
        member-judge_all hidden answering observed live ct x,
        member-judge_all hidden answering observed (add ns live) judged x,
      )

  -- What the loop over the observed names finds right.
  abbrev allowed : KeySet Text → KeySet Text → List Text → Bool
  allowed hidden answering observed =
      all
        (λ raw.
          is_empty (normalize_domain u raw)
          || not (member (normalize_domain u raw) hidden)
            && member (normalize_domain u raw) answering)
        observed

  judge_all-status :
      (hidden answering : KeySet Text) (observed : List Text) (live : KeySet Text)
      (ct : ConditionTracker)
      → let judged = (judge_all u hidden answering observed live ct).1 in
        (is_ok judged ≡ (is_ok ct && allowed hidden answering observed))
        × (has_failed judged ≡ (has_failed ct || not (allowed hidden answering observed)))
  unfolding judge_all judge_observed all promote
  judge_all-status hidden answering [] live ct = (ground arith, ground arith)
  judge_all-status hidden answering (raw ∷ observed) live ct =
      let ns = normalize_domain u raw in
      let next = if is_empty ns then ct else judge_observed hidden answering ns ct in
      let ih =
        judge_all-status hidden answering observed (if is_empty ns then live else add ns live)
          next in
      (ground (arith, ih), ground (arith, ih))

  abbrev present : List NameserverConfig → KeySet Text → Bool
  present configured live =
      all (λ n. n.hidden || member (normalize_domain u n.hostname) live) configured

  judge_missing-status :
      (configured : List NameserverConfig) (live : KeySet Text) (ct : ConditionTracker)
      → let judged = judge_missing u configured live ct in
        (is_ok judged ≡ (is_ok ct && present configured live))
        × (has_failed judged ≡ (has_failed ct || not (present configured live)))
  unfolding judge_missing all promote
  judge_missing-status [] live ct = (ground arith, ground arith)
  judge_missing-status (n ∷ ns) live ct =
      let gone = not n.hidden && not (member (normalize_domain u n.hostname) live) in
      let next = if gone then promote ct failed Code.expected_ns_missing n.hostname else ct in
      let ih = judge_missing-status ns live next in (ground (arith, ih), ground (arith, ih))

  allowed-is_configured :
      (configured : List NameserverConfig) (observed : List Text)
      → allowed
          (configured_names u true configured [])
          (configured_names u false configured [])
          observed
        ≡ all
            (λ raw.
              is_empty (normalize_domain u raw)
              || not (is_configured u true configured (normalize_domain u raw))
                && is_configured u false configured (normalize_domain u raw))
            observed
  unfolding all lookup
  allowed-is_configured configured [] = refl
  allowed-is_configured configured (raw ∷ observed) = ground (
    arith,
    member-configured_names true configured [] (normalize_domain u raw),
    member-configured_names false configured [] (normalize_domain u raw),
    allowed-is_configured configured observed,
  )

  present-is_observed :
      (hidden answering : KeySet Text) (observed : List Text) (ct : ConditionTracker)
      (configured : List NameserverConfig)
      → present configured (judge_all u hidden answering observed [] ct).0
        ≡ all (λ n. n.hidden || is_observed u observed (normalize_domain u n.hostname)) configured
  unfolding all lookup
  present-is_observed hidden answering observed ct [] = refl
  present-is_observed hidden answering observed ct (n ∷ ns) = ground (
    arith,
    member-judge_all hidden answering observed [] ct (normalize_domain u n.hostname),
    present-is_observed hidden answering observed ct ns,
  )

  pub evaluate_nameserver_delegation-status :
      (configured : List NameserverConfig) (observed : List Text) (ct : ConditionTracker)
      → let judged = evaluate_nameserver_delegation u configured observed ct in
        let agrees = is_empty configured || delegation_agrees u configured observed in
        (is_ok judged ≡ (is_ok ct && agrees)) × (has_failed judged ≡ (has_failed ct || not agrees))
  unfolding evaluate_nameserver_delegation delegation_agrees
  evaluate_nameserver_delegation-status configured observed ct =
      let hidden = configured_names u true configured [] in
      let answering = configured_names u false configured [] in
      let judged = judge_all u hidden answering observed [] ct in
      let first = judge_all-status hidden answering observed [] ct in
      let second = judge_missing-status configured judged.0 judged.1 in
      let seen = allowed-is_configured configured observed in
      let there = present-is_observed hidden answering observed ct configured in
      (ground (arith, first, second, seen, there), ground (arith, first, second, seen, there))

  -- Whatever failing promotions keep, the delegation check keeps.
  module _ (P : ConditionTracker → Type 0)
      (keeps : (ct : ConditionTracker) (code : ResultCode) (target : Text)
        → (code == Code.no_code) ≡ false
        → P ct
        → P (promote ct failed code target)) where
    judge_observed_keeps :
        (hidden answering : KeySet Text) (ns : Text) (ct : ConditionTracker)
        → P ct
        → P (judge_observed hidden answering ns ct)
    unfolding judge_observed
    judge_observed_keeps hidden answering ns ct p = elim (Bool-cases (member ns hidden)) [
      | inl h ↦ rw h (keeps ct Code.ns_hidden_exposed ns refl p)
      | inr h ↦ elim (Bool-cases (member ns answering)) [
        | inl a ↦ rw (h, a) p
        | inr a ↦ rw (h, a) (keeps ct Code.unauthorized_ns ns refl p)
      ]
    ]

    judge_all_keeps :
        (hidden answering : KeySet Text) (observed : List Text) (live : KeySet Text)
        (ct : ConditionTracker)
        → P ct
        → P (judge_all u hidden answering observed live ct).1
    unfolding judge_all
    judge_all_keeps hidden answering [] live ct p = p
    judge_all_keeps hidden answering (raw ∷ observed) live ct p =
        judge_all_keeps hidden answering observed _ _ (
          if_keeps P (is_empty (normalize_domain u raw)) p
            (judge_observed_keeps hidden answering (normalize_domain u raw) ct p))

    judge_missing_keeps :
        (configured : List NameserverConfig) (live : KeySet Text) (ct : ConditionTracker)
        → P ct
        → P (judge_missing u configured live ct)
    unfolding judge_missing
    judge_missing_keeps [] live ct p = p
    judge_missing_keeps (n ∷ ns) live ct p =
        elim (Bool-cases (not n.hidden && not (member (normalize_domain u n.hostname) live))) [
          | inl e ↦
              rw e (
                judge_missing_keeps ns live _ (keeps ct Code.expected_ns_missing n.hostname refl p))
          | inr e ↦ rw e (judge_missing_keeps ns live ct p)
        ]

    pub evaluate_nameserver_delegation_keeps :
        (configured : List NameserverConfig) (observed : List Text) (ct : ConditionTracker)
        → P ct
        → P (evaluate_nameserver_delegation u configured observed ct)
    unfolding evaluate_nameserver_delegation
    evaluate_nameserver_delegation_keeps configured observed ct p =
        elim (Bool-cases (is_empty configured)) [
          | inl e ↦ rw e p
          | inr e ↦ rw e (judge_missing_keeps configured _ _ (judge_all_keeps _ _ observed [] ct p))
        ]

  -- The delegation of a zone, once its nameservers are known, is ok exactly when it agrees with the
  -- configuration (or none is configured), and failed otherwise: every observed name that is not
  -- blank is a configured answering one and not a hidden one, and every configured answering one
  -- is observed, all up to NormalizeDomain.
  pub ns_delegation_ok_iff :
      (target : DomainConfig) (snapshot : NsDelegationSnapshot)
      → snapshot.err ≡ none
      → is_empty snapshot.nameservers ≡ false
      → let status = (evaluate_ns_delegation u target snapshot).0 in
        let agrees =
          is_empty target.nameservers
          || delegation_agrees u target.nameservers snapshot.nameservers in
        (same_status status ok ≡ agrees) × (same_status status failed ≡ not agrees)
  unfolding evaluate_ns_delegation
  ns_delegation_ok_iff target snapshot e h =
      let found =
        evaluate_nameserver_delegation-status target.nameservers snapshot.nameservers new_tracker in
      (ground (arith, found), ground (arith, found))
