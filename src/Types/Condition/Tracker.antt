-- ===== src/Types/Condition/Tracker.antt =====
-- What a ConditionTracker holds after any promotions.
use domain_monitor.Base.{◌≡◌, refl, List, [], ◌∷◌, Option, none, some, arith, if◌then◌else◌}
use domain_monitor.Text.{Text}
use domain_monitor.Types.Code.{ResultCode}
use domain_monitor.Types.Status.{CheckStatus, failed, warning, same_status}
use domain_monitor.Types.Condition.{
  StateCondition, condition, ConditionTracker, new_tracker, promote,
}

pub record Promotion : Type 0 where
  pub status : CheckStatus
  pub code : ResultCode
  pub target : Text

unfoldable pub promote_all : ConditionTracker → List Promotion → ConditionTracker
promote_all ct [] = ct
promote_all ct (p ∷ ps) = promote_all (promote ct p.status p.code p.target) ps

-- The first promotion to a status.
unfoldable pub first_to : CheckStatus → List Promotion → Option Promotion
first_to s [] = none
first_to s (p ∷ ps) = if same_status p.status s then some p else first_to s ps

-- The worst status is kept, and with it the condition that first raised it.
unfoldable pub worst : List Promotion → ConditionTracker
unfolding first_to
worst ps = elim (first_to failed ps) [
  | some p ↦ record { status = failed; cond = condition p.code p.target }
  | none ↦ elim (first_to warning ps) [
    | some p ↦ record { status = warning; cond = condition p.code p.target }
    | none ↦ new_tracker
  ]
]

from_failed :
    (c : StateCondition) (ps : List Promotion)
    → promote_all (record { status = failed; cond = c }) ps ≡ record { status = failed; cond = c }
unfolding promote_all promote
from_failed c [] = refl
from_failed c (p ∷ ps) = ground (arith, from_failed c ps)

abbrev failed_or : StateCondition → Option Promotion → ConditionTracker
failed_or c (some p) = record { status = failed; cond = condition p.code p.target }
failed_or c none = record { status = warning; cond = c }

from_warning :
    (c : StateCondition) (ps : List Promotion)
    → promote_all (record { status = warning; cond = c }) ps ≡ failed_or c (first_to failed ps)
unfolding promote_all promote first_to
from_warning c [] = refl
from_warning c (p ∷ ps) =
    ground (arith, from_warning c ps, from_failed (condition p.code p.target) ps)

-- Whatever a check promotes, in whatever order, the tracker ends with the worst status promoted
-- (failed before warning, and ok if there was neither), and with the condition of the first
-- promotion to that status.
pub promote_all-worst : (ps : List Promotion) → promote_all new_tracker ps ≡ worst ps
unfolding promote_all promote worst
promote_all-worst [] = refl
promote_all-worst (p ∷ ps) = ground (
  arith,
  promote_all-worst ps,
  from_warning (condition p.code p.target) ps,
  from_failed (condition p.code p.target) ps,
)
