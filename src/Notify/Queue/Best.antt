-- ===== src/Notify/Queue/Best.antt =====
-- What the queue holds after the alerts of a cycle.
use domain_monitor.Base.{
  ℕ, min, zero, suc, ◌-◌, ◌≤◌, ◌≡◌, inl, inr, refl, ap, subst, sym, ◌∙◌, false, List, [], ◌∷◌, ◌++◌,
  arith, ltb, if◌then◌else◌, is_empty, length, take, length-append, length-take, length-sort,
  take-sort, sort, Bool-cases,
}
use domain_monitor.Text.{Text}
use domain_monitor.Notify.Order.{
  Alert, may_precede, sort_alerts, may_precede_total, may_precede_trans,
}
use domain_monitor.Notify.Queue.{
  NotificationManager, new_notification_manager, queued_alert, enqueue, dispatch_cycle_alerts,
}

-- The alerts as they are queued, and those above the bound.
unfoldable pub as_queued : List Alert → List Alert
unfolding queued_alert
as_queued [] = []
as_queued (a ∷ alerts) =
    queued_alert a.message a.redacted a.priority a.tag a.domain a.name ∷ as_queued alerts

-- The queue holds the first 64 of the alerts seen so far, in order, and counts the others.
record Holds (url : Text) (seen : List Alert) (nm : NotificationManager) : Type 0 where
  addressed : nm.ntfy_url ≡ url
  best : nm.alert_batch ≡ take 64 (sort may_precede seen)
  counted : nm.omitted ≡ length seen - 64

take_short {ℓ} : {A : Type ℓ} (n : ℕ) (xs : List A) → length xs ≤ n → take n xs ≡ xs
take_short zero [] h = refl
take_short zero (x ∷ xs) h = ground arith
take_short (suc n) [] h = refl
take_short (suc n) (x ∷ xs) h = ap (λ ys. x ∷ ys) (take_short n xs (omega (arith, h)))

-- The bound of the queue keeps the best of the alerts in it, and drops at most one.
length-enqueued :
    (seen : List Alert) (a : Alert)
    → length (sort may_precede (take 64 (sort may_precede seen) ++ a ∷ []))
      ≡ suc (min 64 (length seen))
length-enqueued seen a =
    let best = take 64 (sort may_precede seen) in
    rw
      (
        length-sort may_precede (best ++ a ∷ []),
        length-append best (a ∷ []),
        length-take 64 (sort may_precede seen),
        length-sort may_precede seen,
      )
      (omega arith)

best_of :
    (seen : List Alert) (a : Alert)
    → take 64 (sort may_precede (take 64 (sort may_precede seen) ++ a ∷ []))
      ≡ take 64 (sort may_precede (seen ++ a ∷ []))
best_of seen a = take-sort may_precede may_precede_total may_precede_trans 64 seen a

enqueue-alert_batch :
    (a : Alert) (nm : NotificationManager)
    → is_empty nm.ntfy_url ≡ false
    → (enqueue a nm).alert_batch ≡ take 64 (sort may_precede (nm.alert_batch ++ a ∷ []))
unfolding enqueue sort_alerts
enqueue-alert_batch a nm e =
    let next = sort may_precede (nm.alert_batch ++ a ∷ []) in
    elim (Bool-cases (ltb 64 (length next))) [
      | inl full ↦ rw (e, full) refl
      | inr room ↦ rw (e, room) (sym (take_short 64 next (ground (arith, room))))
    ]

enqueue-counters :
    (a : Alert) (nm : NotificationManager)
    → is_empty nm.ntfy_url ≡ false
    → ((enqueue a nm).ntfy_url ≡ nm.ntfy_url)
      × ((enqueue a nm).omitted ≡ (
          if ltb 64 (length (sort may_precede (nm.alert_batch ++ a ∷ [])))
          then suc nm.omitted
          else nm.omitted))
unfolding enqueue sort_alerts
enqueue-counters a nm e = (ground arith, ground arith)

enqueue-Holds :
    {url : Text} {seen : List Alert} {nm : NotificationManager} (a : Alert)
    → is_empty url ≡ false
    → Holds url seen nm
    → Holds url (seen ++ a ∷ []) (enqueue a nm)
enqueue-Holds {url} {seen} {nm} a e v =
    let there : is_empty nm.ntfy_url ≡ false = rw v.addressed e in
    let counters = enqueue-counters a nm there in
    record {
      addressed = counters.0 ∙ v.addressed;
      best =
          enqueue-alert_batch a nm there
          ∙ ap (λ b. take 64 (sort may_precede (b ++ a ∷ []))) v.best
          ∙ best_of seen a;
      counted = ground (
        arith,
        counters,
        v.counted,
        ap (λ b. length (sort may_precede (b ++ a ∷ []))) v.best,
        length-enqueued seen a,
        length-append seen (a ∷ []),
      );
    }

append_assoc {ℓ} :
    {A : Type ℓ} (xs : List A) (a : A) (ys : List A) → (xs ++ a ∷ []) ++ ys ≡ xs ++ a ∷ ys
append_assoc [] a ys = refl
append_assoc (x ∷ xs) a ys = ap (λ zs. x ∷ zs) (append_assoc xs a ys)

append_nil {ℓ} : {A : Type ℓ} (xs : List A) → xs ≡ xs ++ []
append_nil [] = refl
append_nil (x ∷ xs) = ap (λ zs. x ∷ zs) (append_nil xs)

length-as_queued : (alerts : List Alert) → length (as_queued alerts) ≡ length alerts
unfolding as_queued
length-as_queued [] = refl
length-as_queued (a ∷ alerts) = ap suc (length-as_queued alerts)

dispatch_cycle_alerts-Holds :
    {url : Text} (seen alerts : List Alert) (nm : NotificationManager)
    → is_empty url ≡ false
    → Holds url seen nm
    → Holds url (seen ++ as_queued alerts) (dispatch_cycle_alerts alerts nm)
unfolding dispatch_cycle_alerts as_queued queued_alert
dispatch_cycle_alerts-Holds {url} seen [] nm e v = subst (λ xs. Holds url xs nm) (append_nil seen) v
dispatch_cycle_alerts-Holds {url} seen (a ∷ alerts) nm e v =
    let q = queued_alert a.message a.redacted a.priority a.tag a.domain a.name in
    subst (λ xs. Holds url xs (dispatch_cycle_alerts alerts (enqueue q nm)))
      (append_assoc seen q (as_queued alerts))
      (dispatch_cycle_alerts-Holds (seen ++ q ∷ []) alerts _ e (enqueue-Holds q e v))

-- Where a delivery address is set, dispatching any alerts one after the other, with a sort and a cut at
-- 64 each time, leaves the queue as if all of them had been sorted at once and the first 64 kept:
-- no alert of a higher rank is lost to one of a lower rank. The counter of omitted alerts is the
-- number of those beyond 64.
pub dispatch_cycle_alerts-best :
    (url auth : Text) (alerts : List Alert)
    → is_empty url ≡ false
    → let queue = dispatch_cycle_alerts alerts (new_notification_manager url auth) in
      (queue.alert_batch ≡ take 64 (sort_alerts (as_queued alerts)))
      × (queue.omitted ≡ length alerts - 64)
unfolding sort_alerts as_queued sort
dispatch_cycle_alerts-best url auth alerts e =
    let v =
      dispatch_cycle_alerts-Holds [] alerts (new_notification_manager url auth) e
        (record { addressed = refl; best = refl; counted = refl }) in
    (v.best, v.counted ∙ ap (λ n. n - 64) (length-as_queued alerts))
