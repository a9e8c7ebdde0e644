-- ===== src/Notify/Order.antt =====
-- Alerts (type Alert of src/internal/monitor/types.go) and the order in which a batch is
-- delivered: sortAlerts in src/internal/monitor/notify.go.
use Prim.Native.Nat.{compare, Ordering}
use domain_monitor.Base.{ℕ, ◌≡◌, refl, Bool, true, false, ◌||◌, List, [], ◌∷◌, arith, sort}
use domain_monitor.Text.{Text}
use domain_monitor.Types.Status.{AlertPriority, priority_number}

pub record Alert : Type 0 where
  pub message : Text
  pub redacted : Text
  pub priority : AlertPriority
  pub tag : Text
  pub domain : Text
  pub name : Text
  pub check : Text
  pub report_id : Text

abbrev pub then_by : Ordering → Ordering → Ordering
then_by Ordering.lt next = Ordering.lt
then_by Ordering.eq next = next
then_by Ordering.gt next = Ordering.gt

-- cmp.Compare on strings. UTF-8 orders as the code points do.
unfoldable pub compare_text : Text → Text → Ordering
compare_text [] [] = Ordering.eq
compare_text [] (y ∷ ys) = Ordering.lt
compare_text (x ∷ xs) [] = Ordering.gt
compare_text (x ∷ xs) (y ∷ ys) = then_by (compare x y) (compare_text xs ys)

abbrev pub text_not_after : Text → Text → Bool
text_not_after a b = elim (compare_text a b) [ Ordering.gt ↦ false | _ ↦ true ]

unfoldable pub compare_alerts : Alert → Alert → Ordering
compare_alerts a b = then_by (compare (priority_number b.priority) (priority_number a.priority)) (
    then_by (compare_text a.check b.check)
      (then_by (compare_text a.domain b.domain) (compare_text a.name b.name)))

abbrev not_after : Ordering → Bool
not_after Ordering.gt = false
not_after _ = true

-- Whether an alert may stand before another.
unfoldable pub may_precede : Alert → Alert → Bool
unfolding compare_alerts
may_precede a b = not_after (compare_alerts a b)

unfoldable pub sort_alerts : List Alert → List Alert
sort_alerts batch = sort may_precede batch

-- What two comparisons allow the third side of a triangle to be.
abbrev coherent : Ordering → Ordering → Ordering → Bool
coherent Ordering.eq Ordering.lt Ordering.lt = true
coherent Ordering.eq Ordering.eq Ordering.eq = true
coherent Ordering.eq Ordering.gt Ordering.gt = true
coherent Ordering.lt Ordering.gt o = true
coherent Ordering.gt Ordering.lt o = true
coherent Ordering.lt Ordering.lt Ordering.lt = true
coherent Ordering.lt Ordering.eq Ordering.lt = true
coherent Ordering.gt Ordering.gt Ordering.gt = true
coherent Ordering.gt Ordering.eq Ordering.gt = true
coherent _ _ _ = false

abbrev flip : Ordering → Ordering
flip Ordering.lt = Ordering.gt
flip Ordering.eq = Ordering.eq
flip Ordering.gt = Ordering.lt

then_by-coherent :
    (x y z x2 y2 z2 : Ordering)
    → coherent x y z ≡ true
    → coherent x2 y2 z2 ≡ true
    → coherent (then_by x x2) (then_by y y2) (then_by z z2) ≡ true
then_by-coherent x y z x2 y2 z2 h k = ground arith

compare-coherent : (a b c : ℕ) → coherent (compare a b) (compare b c) (compare a c) ≡ true
compare-coherent a b c = ground arith

compare-flip : (a b : ℕ) → compare b a ≡ flip (compare a b)
compare-flip a b = ground arith

compare_text-coherent :
    (a b c : Text) → coherent (compare_text a b) (compare_text b c) (compare_text a c) ≡ true
unfolding compare_text
compare_text-coherent [] [] [] = refl
compare_text-coherent [] [] (z ∷ zs) = refl
compare_text-coherent [] (y ∷ ys) [] = refl
compare_text-coherent [] (y ∷ ys) (z ∷ zs) = ground arith
compare_text-coherent (x ∷ xs) [] [] = refl
compare_text-coherent (x ∷ xs) [] (z ∷ zs) = refl
compare_text-coherent (x ∷ xs) (y ∷ ys) [] = ground arith
compare_text-coherent (x ∷ xs) (y ∷ ys) (z ∷ zs) =
    then_by-coherent (compare x y) (compare y z) (compare x z) _ _ _ (compare-coherent x y z)
      (compare_text-coherent xs ys zs)

then_by-flip :
    (x y x2 y2 : Ordering) → y ≡ flip x → y2 ≡ flip x2 → then_by y y2 ≡ flip (then_by x x2)
then_by-flip x y x2 y2 h k = ground arith

compare_text-flip : (a b : Text) → compare_text b a ≡ flip (compare_text a b)
unfolding compare_text
compare_text-flip [] [] = refl
compare_text-flip [] (y ∷ ys) = refl
compare_text-flip (x ∷ xs) [] = refl
compare_text-flip (x ∷ xs) (y ∷ ys) =
    then_by-flip (compare x y) _ _ _ (compare-flip x y) (compare_text-flip xs ys)

total_from : (x y : Ordering) → y ≡ flip x → (not_after x || not_after y) ≡ true
total_from x y h = ground arith

-- The order is total, and transitive.
pub may_precede_total : (a b : Alert) → (may_precede a b || may_precede b a) ≡ true
unfolding may_precede
may_precede_total a b =
    let whole =
      then_by-flip (compare (priority_number b.priority) (priority_number a.priority)) _ _ _
        (compare-flip (priority_number b.priority) (priority_number a.priority))
        (then_by-flip _ _ _ _ (compare_text-flip a.check b.check) (
          then_by-flip _ _ _ _ (compare_text-flip a.domain b.domain)
            (compare_text-flip a.name b.name))) in
    total_from (compare_alerts a b) (compare_alerts b a) whole

trans_from :
    (x y z : Ordering)
    → coherent x y z ≡ true
    → not_after x ≡ true
    → not_after y ≡ true
    → not_after z ≡ true
trans_from x y z h i j = ground arith

compare_alerts-coherent :
    (a b c : Alert) → coherent (compare_alerts a b) (compare_alerts b c) (compare_alerts a c) ≡ true
unfolding compare_alerts
compare_alerts-coherent a b c = then_by-coherent _ _ _ _ _ _ (ground arith) (
    then_by-coherent _ _ _ _ _ _ (compare_text-coherent a.check b.check c.check) (
      then_by-coherent _ _ _ _ _ _ (compare_text-coherent a.domain b.domain c.domain)
        (compare_text-coherent a.name b.name c.name)))

pub may_precede_trans :
    (a b c : Alert) → may_precede a b ≡ true → may_precede b c ≡ true → may_precede a c ≡ true
unfolding may_precede
may_precede_trans a b c =
    trans_from (compare_alerts a b) (compare_alerts b c) (compare_alerts a c)
      (compare_alerts-coherent a b c)
