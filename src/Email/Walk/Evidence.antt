-- ===== src/Email/Walk/Evidence.antt =====
-- What a walk for a DMARC policy may return, and how many queries it makes.
use domain_monitor.Base.{
  ℕ, zero, suc, ◌+◌, ◌≤◌, ◌≡◌, ◌⊎◌, subst, refl, inl, inr, Bool, true, false, not, ◌&&◌, ◌||◌, List,
  [], ◌∷◌, none, arith, if◌then◌else◌, Option-cases, first_of, is_empty, is_some, any, all, keep,
  length, contains, beq_refl,
}
use domain_monitor.Text.{Text, text_eq, Unicode}
use domain_monitor.Utils.{normalize_domain}
use domain_monitor.Errors.{MaybeError}
use domain_monitor.Email.Tags.{
  has_valid_dmarc_policy, has_dmarc_version, select_dmarc_policy_record, choose_candidate,
}
use domain_monitor.Email.Walk.{
  TxtAnswer, PolicyWalk, Candidate, settle, carry, Judged, transient, judge_answer, judge_record,
  at_end, next_domain, dmarc_host, walk, fetch_dmarc_policy,
}

contains-keep :
    (p : Text → Bool) (xs : List Text) (x : Text)
    → contains (keep p xs) x ≡ true
    → contains xs x ≡ true
unfolding contains keep
contains-keep p [] x h = h
contains-keep p (y ∷ ys) x h = ground (arith, contains-keep p ys x)

contains-here : (c : Text) → contains (c ∷ []) c ≡ true
unfolding contains
contains-here c = ground (arith, beq_refl c)

-- The first failure in a list of hosts that is not the absence of a name.
abbrev pub failure : (Text → TxtAnswer) → List Text → MaybeError
failure query [] = none
failure query (h ∷ hs) = if transient (query h) then (query h).err else failure query hs

Judged-cases :
    (j : Judged)
    → ((ps : List Text) × (err : MaybeError) × (j ≡ settle ps err))
      ⊎ ((c : Candidate) × (j ≡ carry c))
Judged-cases (settle ps err) = inl (ps, err, refl)
Judged-cases (carry c) = inr (c, refl)

module _ (u : Unicode) where
  -- A policy that is there is valid, and one of these texts.
  abbrev pub genuine : List Text → Text → Bool
  genuine texts policy = is_empty policy || has_valid_dmarc_policy u policy && contains texts policy

  chosen-genuine :
      (texts kept : List Text)
      → ((x : Text) → contains kept x ≡ true → contains texts x ≡ true)
      → genuine texts (choose_candidate u kept).0 ≡ true
  unfolding choose_candidate
  chosen-genuine texts [] sub = refl
  chosen-genuine texts (c ∷ []) sub = ground (arith, sub c, contains-here c)
  chosen-genuine texts (c ∷ d ∷ more) sub = refl

  selected-genuine :
      (texts : List Text) → genuine texts (select_dmarc_policy_record u texts).0 ≡ true
  unfolding select_dmarc_policy_record
  selected-genuine texts =
      chosen-genuine texts (keep (has_dmarc_version u) texts)
        (contains-keep (has_dmarc_version u) texts)

  module _ (query : Text → TxtAnswer) where
    -- Whether a host that was asked published the policy.
    abbrev pub published : List Text → Text → Bool
    published asked policy = any (λ h. contains (query h).texts policy) asked

    abbrev pub vouched : List Text → Text → Bool
    vouched asked policy = has_valid_dmarc_policy u policy && published asked policy

    record Sound (left : ℕ) (asked : List Text) (w : PolicyWalk) : Type 0 where
      bounded : length w.asked ≤ left + length asked
      single : length w.policies ≤ 1
      clean : all (vouched w.asked) w.policies ≡ true
      exclusive : (is_empty w.policies || not (is_some w.err)) ≡ true
      failed : first_of (failure query w.asked) w.err ≡ w.err

    at_end-Sound :
        (left : ℕ) (cand : Candidate) (asked : List Text)
        → (is_empty cand.policy || vouched asked cand.policy) ≡ true
        → failure query asked ≡ none
        → Sound left asked (at_end cand asked)
    unfolding all
    at_end-Sound left cand asked h n = ground arith

    -- One query of those left is one more host asked.
    earlier-Sound :
        (left : ℕ) (host : Text) (asked : List Text) {w : PolicyWalk}
        → Sound left (host ∷ asked) w
        → Sound (suc left) asked w
    earlier-Sound left host asked s = ground arith

    abbrev pub Fine : List Text → Judged → Type 0
    Fine asked (settle policies err) =
        (length policies ≤ 1)
        × (all (vouched asked) policies ≡ true)
        × ((is_empty policies || not (is_some err)) ≡ true)
        × (first_of (failure query asked) err ≡ err)
    Fine asked (carry cand) =
        ((is_empty cand.policy || vouched asked cand.policy) ≡ true) × (failure query asked ≡ none)

    settled-Sound :
        (left : ℕ) (policies : List Text) (err : MaybeError) (asked : List Text)
        → Fine asked (settle policies err)
        → Sound left asked (record { policies = policies; err = err; asked = asked })
    settled-Sound left policies err asked f = ground arith

    judge_answer-Fine :
        (first : Bool) (current host : Text) (cand : Candidate) (asked : List Text)
        → (is_empty cand.policy || vouched asked cand.policy) ≡ true
        → failure query asked ≡ none
        → Fine (host ∷ asked) (judge_answer u first current (query host) cand)
    unfolding judge_answer judge_record transient any all
    judge_answer-Fine first current host cand asked h n =
        ground (arith, selected-genuine (query host).texts)

    walk-Sound :
        (left : ℕ) (first : Bool) (current : Text) (cand : Candidate) (asked : List Text)
        → (is_empty cand.policy || vouched asked cand.policy) ≡ true
        → failure query asked ≡ none
        → Sound left asked (walk u query left first current cand asked)
    unfolding walk
    walk-Sound zero first current cand asked h n = at_end-Sound zero cand asked h n
    walk-Sound (suc left) first current cand asked h n =
        let host = dmarc_host current in
        let asked' = host ∷ asked in
        let judged = judge_answer u first current (query host) cand in
        let fine = judge_answer-Fine first current host cand asked h n in
        earlier-Sound left host asked (elim (Judged-cases judged) [
          | inl (ps, err, e) ↦
              rw (e, walk) (settled-Sound left ps err asked' (subst (Fine asked') e fine))
          | inr (c, e) ↦
              let (good, clear) = subst (Fine asked') e fine in
              elim (Option-cases (next_domain first current)) [
                | inl e' ↦ rw (e, walk, e') (at_end-Sound left c asked' good clear)
                | inr (parent, e') ↦
                    rw (e, walk, e') (walk-Sound left false parent c asked' good clear)
              ]
        ])

    -- However the servers answer: at most eight queries are made; at most one record is returned,
    -- never beside an error, and it is a valid policy that a queried host published; and where a
    -- query failed otherwise than by the absence of its name, the result is the error of such a
    -- failure, and no record of a parent domain.
    pub fetch_dmarc_policy-safe :
        (domain : Text)
        → let w = fetch_dmarc_policy u query domain in
          (length w.asked ≤ 8)
          × (length w.policies ≤ 1)
          × ((is_empty w.policies || not (is_some w.err)) ≡ true)
          × (all (vouched w.asked) w.policies ≡ true)
          × (first_of (failure query w.asked) w.err ≡ w.err)
    unfolding fetch_dmarc_policy
    fetch_dmarc_policy-safe domain =
        let s =
          walk-Sound 8 true (normalize_domain u domain) (record { policy = []; domain = [] }) []
            refl refl in
        (s.bounded, s.single, s.exclusive, s.clean, s.failed)
