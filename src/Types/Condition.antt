-- ===== src/Types/Condition.antt =====
-- Evaluator verdicts: StateCondition, Finding and ConditionTracker of
-- src/internal/monitor/types.go.
pub mod Findings
pub mod Tracker
use domain_monitor.Base.{
  ℕ, Bool, true, false, ◌&&◌, ◌||◌, not, List, [], ◌∷◌, ◌++◌, ◌==◌, if◌then◌else◌, any, length,
}
use domain_monitor.Text.{Text, text_beq}
use domain_monitor.Types.Code
use domain_monitor.Types.Code.{ResultCode}
use domain_monitor.Types.Status.{
  CheckStatus, unknown, pending, ok, failed, mismatch, warning, hijacked, skipped, same_status,
  FindingSeverity, finding_info, finding_warning, finding_error,
}

-- Nanoseconds since the zero value of time.Time.
abbrev pub Time : Type 0
Time = ℕ

pub record StateCondition : Type 0 where
  pub code : ResultCode
  pub target : Text
  pub since : Time

-- `StateCondition{Code: code, Target: target}`
abbrev pub condition : ResultCode → Text → StateCondition
condition c t = record { code = c; target = t; since = 0 }

-- `StateCondition{}`
abbrev pub zero_condition : StateCondition
zero_condition = condition Code.no_code []

unfoldable pub is_zero : StateCondition → Bool
is_zero c = c.code == Code.no_code

pub record Finding : Type 0 where
  pub code : ResultCode
  pub severity : FindingSeverity
  pub target : Text

abbrev pub max_findings_per_check : ℕ
max_findings_per_check = 16

unfoldable pub severity_of : CheckStatus → FindingSeverity
severity_of status =
    if same_status status warning
    then finding_warning
    else if not (same_status status ok)
        && (not (same_status status pending) && not (same_status status skipped))
    then finding_error
    else finding_info

unfoldable pub same_finding : StateCondition → Finding → Bool
same_finding c f = f.code == c.code && text_beq f.target c.target

-- One round of the loop of findingsFromConditions.
unfoldable pub add_finding : FindingSeverity → StateCondition → List Finding → List Finding
unfolding is_zero
add_finding severity c findings =
    if is_zero c || length findings == max_findings_per_check
    then findings
    else if any (same_finding c) findings
    then findings
    else findings ++ record { code = c.code; severity = severity; target = c.target } ∷ []

unfoldable pub collect_findings :
    FindingSeverity → List StateCondition → List Finding → List Finding
collect_findings severity [] findings = findings
collect_findings severity (c ∷ cs) findings =
    collect_findings severity cs (add_finding severity c findings)

unfoldable pub findings_from_conditions : CheckStatus → List StateCondition → List Finding
unfolding severity_of collect_findings add_finding
findings_from_conditions status conditions = collect_findings (severity_of status) conditions []

pub record ConditionTracker : Type 0 where
  pub status : CheckStatus
  pub cond : StateCondition

-- `ConditionTracker{Status: StatusOK}`
abbrev pub new_tracker : ConditionTracker
new_tracker = record { status = ok; cond = zero_condition }

unfoldable pub promote : ConditionTracker → CheckStatus → ResultCode → Text → ConditionTracker
promote ct status code target =
    if same_status status failed && not (same_status ct.status failed)
    then record { status = failed; cond = condition code target }
    else if same_status status warning && same_status ct.status ok
    then record { status = warning; cond = condition code target }
    else ct
