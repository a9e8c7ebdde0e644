-- ===== src/Cycle/Transitions.antt =====
-- The statuses that are remembered between cycles to log their changes: logStateTransitions in
-- src/internal/monitor/runtime.go. The log lines are a result.
use domain_monitor.Base.{
  ◌≡◌, refl, inl, inr, Bool, true, false, not, ◌||◌, List, [], ◌∷◌, ◌++◌, Option, none, some, arith,
  if◌then◌else◌, is_some, Map, lookup, insert, retain, contains, sort, insert_sorted, lookup-insert,
  lookup-retain, Bool-cases, Option-cases, ap, sym, ◌∙◌,
}
use domain_monitor.Text.{Text, text_beq, text_beq_iff, text_eq}
use domain_monitor.Types.Status.{CheckStatus, unknown, same_status}
use domain_monitor.Notify.Order.{text_not_after}

pub record Transition : Type 0 where
  pub target : Text
  pub before : CheckStatus
  pub now : CheckStatus

unfoldable pub key_list {ℓ} : {A : Type ℓ} → Map Text A → List Text
key_list [] = []
key_list ((k, a) ∷ m) = k ∷ key_list m

-- The log line for a key, if its status was known and has changed.
unfoldable pub transition_of : Text → Option CheckStatus → CheckStatus → List Transition
transition_of k none now = []
transition_of k (some before) now =
    if not (same_status before now)
    then record { target = k; before = before; now = now } ∷ []
    else []

-- What is remembered for a key whose status is now `now`.
unfoldable pub next_status : Option CheckStatus → Option CheckStatus → Option CheckStatus
next_status before none = before
next_status before (some now) = if same_status now unknown then before else some now

-- A key that is skipped, since its status leaves what is remembered as it is.
unchanged :
    (here later : Bool) (before after found : Option CheckStatus)
    → (here ≡ true → next_status before found ≡ before)
    → after ≡ (if later then next_status before found else before)
    → after ≡ (if here || later then next_status before found else before)
unchanged true true before after found h e = e
unchanged true false before after found h e = e ∙ sym (h refl)
unchanged false later before after found h e = e

module _ {A : Type 0} (get_status : A → CheckStatus) where
  unfoldable pub status_at : Map Text A → Text → Option CheckStatus
  status_at current k = elim (lookup k current) [ none ↦ none | some a ↦ some (get_status a) ]

  -- The loop over the sorted keys.
  unfoldable pub visit_keys :
      Map Text A → List Text → Map Text CheckStatus → List Transition × Map Text CheckStatus
  unfolding status_at transition_of
  visit_keys current [] prev = ([], prev)
  visit_keys current (k ∷ keys) prev = elim (status_at current k) [
    | none ↦ visit_keys current keys prev
    | some now ↦ elim (same_status now unknown) [
      | true ↦ visit_keys current keys prev
      | false ↦
          let (lines, after) = visit_keys current keys (insert k now prev) in
          (transition_of k (lookup k prev) now ++ lines, after)
    ]
  ]

  unfoldable pub log_state_transitions :
      Map Text A → Map Text CheckStatus → List Transition × Map Text CheckStatus
  unfolding visit_keys key_list
  log_state_transitions current prev =
      let (lines, after) = visit_keys current (sort text_not_after (key_list current)) prev in
      (lines, retain (λ k status. is_some (lookup k current)) after)

  visit_keys-lookup :
      (current : Map Text A) (keys : List Text) (prev : Map Text CheckStatus) (j : Text)
      → lookup j (visit_keys current keys prev).1 ≡ (
          if contains keys j
          then next_status (lookup j prev) (status_at current j)
          else lookup j prev)
  unfolding visit_keys contains next_status
  visit_keys-lookup current [] prev j = refl
  visit_keys-lookup current (k ∷ keys) prev j =
      let same =
        λ (h : text_beq k j ≡ true). ap (λ t. status_at current t) ((text_beq_iff k j).0 h) in
      elim (Option-cases (status_at current k)) [
        | inl n ↦
            rw (n, visit_keys)
              (unchanged (text_beq k j) (contains keys j) (lookup j prev) _ (status_at current j)
                (λ h. ground (arith, same h, n)) (visit_keys-lookup current keys prev j))
        | inr (now, n) ↦ elim (Bool-cases (same_status now unknown)) [
          | inl quiet ↦
              rw (n, quiet, visit_keys)
                (unchanged (text_beq k j) (contains keys j) (lookup j prev) _ (status_at current j)
                  (λ h. ground (arith, same h, n, quiet)) (visit_keys-lookup current keys prev j))
          | inr known ↦
              rw (n, known, visit_keys)
                (visit_keys-lookup current keys (insert k now prev) j
                  ∙ ground (arith, same, n, known, lookup-insert k j now prev))
        ]
      ]

contains-insert_sorted :
    (x : Text) (xs : List Text) (j : Text)
    → contains (insert_sorted text_not_after x xs) j ≡ (text_beq x j || contains xs j)
unfolding insert_sorted contains
contains-insert_sorted x [] j = refl
contains-insert_sorted x (y ∷ ys) j = ground (arith, contains-insert_sorted x ys j)

contains-sort : (xs : List Text) (j : Text) → contains (sort text_not_after xs) j ≡ contains xs j
unfolding sort contains
contains-sort [] j = refl
contains-sort (x ∷ xs) j =
    ground (arith, contains-insert_sorted x (sort text_not_after xs) j, contains-sort xs j)

contains-key_list {ℓ} :
    {A : Type ℓ} (m : Map Text A) (j : Text) → contains (key_list m) j ≡ is_some (lookup j m)
unfolding contains key_list lookup
contains-key_list [] j = refl
contains-key_list ((k, a) ∷ m) j = ground (arith, contains-key_list m j)

-- After a cycle, what is remembered of a key is its status now; where that is unknown, what was
-- remembered before; and nothing where the cycle has no result for it.
pub log_state_transitions-lookup :
    {A : Type 0} (get_status : A → CheckStatus) (current : Map Text A) (prev : Map Text CheckStatus)
    (j : Text)
    → lookup j (log_state_transitions get_status current prev).1 ≡ (
        if is_some (lookup j current)
        then next_status (lookup j prev) (status_at get_status current j)
        else none)
unfolding log_state_transitions
log_state_transitions-lookup get_status current prev j =
    let keys = sort text_not_after (key_list current) in
    lookup-retain (λ k. is_some (lookup k current)) j (visit_keys get_status current keys prev).1
    ∙ ground (
      arith,
      visit_keys-lookup get_status current keys prev j,
      contains-sort (key_list current) j,
      contains-key_list current j,
    )
