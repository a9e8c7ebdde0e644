-- ===== src/Base/Sort.antt =====
-- slices.SortStableFunc, by a test that says which of two may come first.
use Prim.Native.Nat.{ℕ, zero, suc}
use mathlib.Core.Path.{◌≡◌, refl, ap, ◌∙◌, sym}
use mathlib.Core.Logic.{inl, inr}
use mathlib.Core.Bool.{Bool, true, ◌||◌}
use mathlib.Core.List.{List, [], ◌∷◌, ◌++◌}
use native.Mathlib.Omega.{arith}
use domain_monitor.Base.Tests.{if◌then◌else◌, Bool-cases}
use domain_monitor.Base.Lists.{length, take}

module _ {ℓ} {A : Type ℓ} (le : A → A → Bool) where
  unfoldable pub insert_sorted : A → List A → List A
  insert_sorted x [] = x ∷ []
  insert_sorted x (y ∷ ys) = if le x y then x ∷ y ∷ ys else y ∷ insert_sorted x ys

  unfoldable pub sort : List A → List A
  unfolding insert_sorted
  sort [] = []
  sort (x ∷ xs) = insert_sorted x (sort xs)

  -- A newcomer behind those that may come before it.
  unfoldable pub insert_last : A → List A → List A
  insert_last a [] = a ∷ []
  insert_last a (y ∷ ys) = if le y a then y ∷ insert_last a ys else a ∷ y ∷ ys

  abbrev pub may_start : A → List A → Bool
  may_start x [] = true
  may_start x (y ∷ ys) = le x y

  abbrev pub IsSorted : List A → Type 0
  IsSorted [] = Unit
  IsSorted (x ∷ xs) = (may_start x xs ≡ true) × IsSorted xs

  length-insert_sorted : (x : A) (xs : List A) → length (insert_sorted x xs) ≡ suc (length xs)
  unfolding insert_sorted
  length-insert_sorted x [] = refl
  length-insert_sorted x (y ∷ ys) = ground (arith, length-insert_sorted x ys)

  pub length-sort : (xs : List A) → length (sort xs) ≡ length xs
  unfolding sort
  length-sort [] = refl
  length-sort (x ∷ xs) = length-insert_sorted x (sort xs) ∙ ap suc (length-sort xs)

  -- Sorting a sorted list, or the start of one, changes nothing.
  pub sort_idempotent : (xs : List A) → IsSorted xs → sort xs ≡ xs
  unfolding sort insert_sorted
  sort_idempotent [] h = refl
  sort_idempotent (x ∷ []) h = refl
  sort_idempotent (x ∷ y ∷ ys) h =
      ap (insert_sorted x) (sort_idempotent (y ∷ ys) h.1) ∙ ground arith

  pub take-IsSorted : (n : ℕ) (xs : List A) → IsSorted xs → IsSorted (take n xs)
  take-IsSorted zero xs h = tt
  take-IsSorted (suc n) [] h = tt
  take-IsSorted (suc zero) (x ∷ xs) h = (refl, tt)
  take-IsSorted (suc (suc n)) (x ∷ []) h = (refl, tt)
  take-IsSorted (suc (suc n)) (x ∷ y ∷ ys) h = (h.0, take-IsSorted (suc n) (y ∷ ys) h.1)

  take_twice : (n : ℕ) (xs : List A) → take n (take (suc n) xs) ≡ take n xs
  take_twice zero xs = refl
  take_twice (suc n) [] = refl
  take_twice (suc n) (x ∷ xs) = ap (λ ys. x ∷ ys) (take_twice n xs)

  take_cons : (n : ℕ) (x : A) (xs : List A) → take n (x ∷ take n xs) ≡ take n (x ∷ xs)
  take_cons zero x xs = refl
  take_cons (suc n) x xs = ap (λ ys. x ∷ ys) (take_twice n xs)

  pub take-insert_last :
      (n : ℕ) (a : A) (xs : List A) → take n (insert_last a (take n xs)) ≡ take n (insert_last a xs)
  unfolding insert_last
  take-insert_last zero a xs = refl
  take-insert_last (suc n) a [] = refl
  take-insert_last (suc n) a (x ∷ xs) = elim (Bool-cases (le x a)) [
    | inl h ↦ rw h (ap (λ ys. x ∷ ys) (take-insert_last n a xs))
    | inr h ↦ rw h (ap (λ ys. a ∷ ys) (take_cons n x xs))
  ]

  module _ (total : (a b : A) → (le a b || le b a) ≡ true)
      (trans : (a b c : A) → le a b ≡ true → le b c ≡ true → le a c ≡ true) where
    insert_sorted-may_start :
        (x y : A) (ys : List A)
        → le y x ≡ true
        → may_start y ys ≡ true
        → may_start y (insert_sorted x ys) ≡ true
    unfolding insert_sorted
    insert_sorted-may_start x y [] h s = h
    insert_sorted-may_start x y (z ∷ zs) h s = ground arith

    insert_sorted-IsSorted : (x : A) (xs : List A) → IsSorted xs → IsSorted (insert_sorted x xs)
    unfolding insert_sorted
    insert_sorted-IsSorted x [] h = (refl, tt)
    insert_sorted-IsSorted x (y ∷ ys) h = elim (Bool-cases (le x y)) [
      | inl e ↦ rw e (e, h)
      | inr e ↦ rw e (
        insert_sorted-may_start x y ys (ground (arith, total x y)) h.0,
        insert_sorted-IsSorted x ys h.1,
      )
    ]

    pub sort-IsSorted : (xs : List A) → IsSorted (sort xs)
    unfolding sort
    sort-IsSorted [] = tt
    sort-IsSorted (x ∷ xs) = insert_sorted-IsSorted x (sort xs) (sort-IsSorted xs)

    insert_sorted-insert_last :
        (x a : A) (ys : List A)
        → insert_sorted x (insert_last a ys) ≡ insert_last a (insert_sorted x ys)
    unfolding insert_sorted insert_last
    insert_sorted-insert_last x a [] = ground arith
    insert_sorted-insert_last x a (y ∷ ys) =
        ground (arith, insert_sorted-insert_last x a ys, trans x y a, trans x a y, total a y)

    pub sort-append : (xs : List A) (a : A) → sort (xs ++ a ∷ []) ≡ insert_last a (sort xs)
    unfolding sort insert_last
    sort-append [] a = refl
    sort-append (x ∷ xs) a =
        ap (insert_sorted x) (sort-append xs a) ∙ insert_sorted-insert_last x a (sort xs)

    -- Keeping the best `n` at each arrival gives the best `n` of all.
    pub take-sort :
        (n : ℕ) (xs : List A) (a : A)
        → take n (sort (take n (sort xs) ++ a ∷ [])) ≡ take n (sort (xs ++ a ∷ []))
    take-sort n xs a =
        ap (take n) (
          sort-append (take n (sort xs)) a
          ∙ ap (insert_last a)
              (sort_idempotent (take n (sort xs)) (take-IsSorted n (sort xs) (sort-IsSorted xs))))
        ∙ take-insert_last n a (sort xs)
        ∙ ap (take n) (sym (sort-append xs a))
