-- ===== src/Types/Status.antt =====
-- The enumerations of src/internal/monitor/types.go: check statuses, finding severities and alert
-- priorities, by their numbers and names in constants.go.
use domain_monitor.Base.{ℕ, Bool, ◌==◌, List, [], ◌∷◌}
use domain_monitor.Text.{Text, codes}

pub data CheckStatus : Type 0 where
  unknown pending ok failed mismatch warning hijacked skipped : CheckStatus

abbrev pub status_number : CheckStatus → ℕ
status_number unknown = 0
status_number pending = 1
status_number ok = 2
status_number failed = 3
status_number mismatch = 4
status_number warning = 5
status_number hijacked = 6
status_number skipped = 7

-- `a == b` on statuses.
abbrev pub same_status : CheckStatus → CheckStatus → Bool
same_status a b = status_number a == status_number b

unfoldable pub check_status_names : List Text
check_status_names =
    codes ""
    ∷ codes "pending"
    ∷ codes "ok"
    ∷ codes "failed"
    ∷ codes "mismatch"
    ∷ codes "warning"
    ∷ codes "hijacked"
    ∷ codes "skipped"
    ∷ []

pub data FindingSeverity : Type 0 where
  finding_info finding_warning finding_error : FindingSeverity

abbrev pub severity_number : FindingSeverity → ℕ
severity_number finding_info = 0
severity_number finding_warning = 1
severity_number finding_error = 2

unfoldable pub finding_severity_names : List Text
finding_severity_names = codes "info" ∷ codes "warning" ∷ codes "error" ∷ []

pub data AlertPriority : Type 0 where
  priority_default priority_warning priority_high priority_urgent : AlertPriority

abbrev pub priority_number : AlertPriority → ℕ
priority_number priority_default = 0
priority_number priority_warning = 1
priority_number priority_high = 2
priority_number priority_urgent = 3

unfoldable pub alert_priority_names : List Text
alert_priority_names = codes "default" ∷ codes "warning" ∷ codes "high" ∷ codes "urgent" ∷ []
