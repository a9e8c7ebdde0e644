-- ===== src/Types/Condition/Findings.antt =====
-- What findingsFromConditions guarantees.
use domain_monitor.Base.{
  ◌≤◌, ◌<◌, ◌≡◌, ◌≢◌, refl, inl, inr, any-append, true, false, ◌||◌, List, [], ◌∷◌, ◌++◌, arith,
  ◌==◌, any, length, beq_refl, beq_comm, length-append, All, All-append, Bool-cases,
}
use domain_monitor.Text.{text_eq}
use domain_monitor.Types.Status.{CheckStatus, FindingSeverity}
use domain_monitor.Types.Condition.{
  StateCondition, is_zero, Finding, max_findings_per_check, severity_of, same_finding, add_finding,
  collect_findings, findings_from_conditions,
}

-- No two findings have the same code and target.
abbrev pub NoRepeat : List Finding → Type 0
NoRepeat [] = Unit
NoRepeat (f ∷ fs) =
    (any (same_finding (record { code = f.code; target = f.target; since = 0 })) fs ≡ false)
    × NoRepeat fs

NoRepeat-append :
    (severity : FindingSeverity) (c : StateCondition) (fs : List Finding)
    → NoRepeat fs
    → any (same_finding c) fs ≡ false
    → NoRepeat (fs ++ record { code = c.code; severity = severity; target = c.target } ∷ [])
unfolding any same_finding
NoRepeat-append severity c [] n h = ground arith
NoRepeat-append severity c (f ∷ fs) n h =
    let new : Finding = record { code = c.code; severity = severity; target = c.target } in
    let own : StateCondition = record { code = f.code; target = f.target; since = 0 } in
    ground (
      arith,
      any-append (same_finding own) fs (new ∷ []),
      beq_comm f.target c.target,
      NoRepeat-append severity c fs,
    )

-- What holds of the findings at each round of the loop.
record Inv (severity : FindingSeverity) (fs : List Finding) : Type 0 where
  bounded : length fs ≤ max_findings_per_check
  rated : All (λ f. f.severity ≡ severity) fs
  coded : All (λ f. f.code ≢ 0) fs
  different : NoRepeat fs

add_finding-Inv :
    (severity : FindingSeverity) (c : StateCondition) (fs : List Finding)
    → Inv severity fs
    → Inv severity (add_finding severity c fs)
unfolding add_finding
add_finding-Inv severity c fs v =
    elim (Bool-cases (is_zero c || length fs == max_findings_per_check)) [
      | inl skip ↦ rw skip v
      | inr go ↦ elim (Bool-cases (any (same_finding c) fs)) [
        | inl seen ↦ rw (go, seen) v
        | inr fresh ↦
            rw (go, fresh)
              (record {
                bounded = ground (
                  arith,
                  v.bounded,
                  length-append fs
                      (record { code = c.code; severity = severity; target = c.target } ∷ []),
                );
                rated = All-append _ fs _ v.rated (refl, tt);
                coded = All-append _ fs _ v.coded (ground arith, tt);
                different = NoRepeat-append severity c fs v.different fresh;
              })
      ]
    ]

collect_findings-Inv :
    (severity : FindingSeverity) (cs : List StateCondition) (fs : List Finding)
    → Inv severity fs
    → Inv severity (collect_findings severity cs fs)
unfolding collect_findings
collect_findings-Inv severity [] fs v = v
collect_findings-Inv severity (c ∷ cs) fs v =
    collect_findings-Inv severity cs (add_finding severity c fs) (add_finding-Inv severity c fs v)

-- Whatever the conditions: there are at most 16 findings, each with the severity of the check's
-- status and a code other than CodeNone, and no two with the same code and target.
pub findings_well_formed :
    (status : CheckStatus) (conditions : List StateCondition)
    → let findings = findings_from_conditions status conditions in
      (length findings ≤ 16)
      × All (λ f. f.severity ≡ severity_of status) findings
      × All (λ f. f.code ≢ 0) findings
      × NoRepeat findings
unfolding findings_from_conditions
findings_well_formed status conditions =
    let v =
      collect_findings-Inv (severity_of status) conditions []
        (record { bounded = omega arith; rated = tt; coded = tt; different = tt }) in
    (v.bounded, v.rated, v.coded, v.different)

-- A finding, once there, stays; and the list only grows.
collect_findings_keeps :
    (severity : FindingSeverity) (c : StateCondition) (cs : List StateCondition) (fs : List Finding)
    → any (same_finding c) fs ≡ true
    → any (same_finding c) (collect_findings severity cs fs) ≡ true
unfolding collect_findings add_finding
collect_findings_keeps severity c [] fs h = h
collect_findings_keeps severity c (d ∷ cs) fs h =
    collect_findings_keeps severity c cs (add_finding severity d fs) (
      ground (
        arith,
        any-append (same_finding c) fs
            (record { code = d.code; severity = severity; target = d.target } ∷ []),
      ))

length-collect_findings :
    (severity : FindingSeverity) (cs : List StateCondition) (fs : List Finding)
    → length fs ≤ length (collect_findings severity cs fs)
unfolding collect_findings add_finding
length-collect_findings severity [] fs = omega arith
length-collect_findings severity (d ∷ cs) fs = ground (
  arith,
  length-collect_findings severity cs (add_finding severity d fs),
  length-append fs (record { code = d.code; severity = severity; target = d.target } ∷ []),
)

add_finding_adds :
    (severity : FindingSeverity) (c : StateCondition) (fs : List Finding)
    → length fs ≢ max_findings_per_check
    → (is_zero c || any (same_finding c) (add_finding severity c fs)) ≡ true
unfolding add_finding same_finding any
add_finding_adds severity c fs h = ground (
  arith,
  any-append (same_finding c) fs
      (record { code = c.code; severity = severity; target = c.target } ∷ []),
  beq_refl c.target,
)

add_finding_room :
    (severity : FindingSeverity) (c : StateCondition) (fs : List Finding)
    → length (add_finding severity c fs) < max_findings_per_check
    → length fs ≢ max_findings_per_check
unfolding add_finding
add_finding_room severity c fs h = ground (
  arith,
  length-append fs (record { code = c.code; severity = severity; target = c.target } ∷ []),
)

abbrev Covers : List StateCondition → List Finding → Type 0
Covers conditions findings =
    All (λ c. (is_zero c || any (same_finding c) findings) ≡ true) conditions

collect_findings-Covers :
    (severity : FindingSeverity) (cs : List StateCondition) (fs : List Finding)
    → length (collect_findings severity cs fs) < max_findings_per_check
    → Covers cs (collect_findings severity cs fs)
unfolding collect_findings
collect_findings-Covers severity [] fs h = tt
collect_findings-Covers severity (c ∷ cs) fs h =
    let room = length-collect_findings severity cs (add_finding severity c fs) in
    (
      ground (
        arith,
        add_finding_adds severity c fs (add_finding_room severity c fs (omega arith)),
        collect_findings_keeps severity c cs (add_finding severity c fs),
      ),
      collect_findings-Covers severity cs (add_finding severity c fs) h,
    )

-- While the bound is not met, nothing is lost: each condition with a code other than CodeNone has
-- a finding with its code and target.
pub findings_complete :
    (status : CheckStatus) (conditions : List StateCondition)
    → length (findings_from_conditions status conditions) < 16
    → All
        (λ c.
          (is_zero c || any (same_finding c) (findings_from_conditions status conditions)) ≡ true)
        conditions
unfolding findings_from_conditions
findings_complete status conditions h = collect_findings-Covers (severity_of status) conditions [] h
