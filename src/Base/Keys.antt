-- ===== src/Base/Keys.antt =====
-- Go's maps as association lists over a key with a Boolean equality. A read of a missing key is
-- `none`; a write replaces the entry in place, or adds one at the end.
use Prim.Native.Nat.{ℕ}
use mathlib.Core.Path.{◌≡◌, refl, ap}
use mathlib.Core.Logic.{◌↔◌, inl, inr}
use mathlib.Core.Bool.{Bool, true, false, ◌&&◌, ◌||◌, not}
use mathlib.Core.Option.{Option, none, some}
use mathlib.Core.List.{List, [], ◌∷◌}
use native.Mathlib.Omega.{arith}
use domain_monitor.Base.Tests.{if◌then◌else◌, is_some, Bool-cases, ◌==◌, ==_iff}

pub record Eq {ℓ} (A : Type ℓ) : Type ℓ where
  pub beq : A → A → Bool
  pub beq_iff : (a b : A) → (beq a b ≡ true) ↔ (a ≡ b)

instance abbrev pub nat_eq : Eq ℕ
nat_eq = record { beq = ◌==◌; beq_iff = ==_iff }

module _ {ℓ} {K : Type ℓ} ⦃e : Eq K⦄ where
  pub beq_refl : (k : K) → e.beq k k ≡ true
  beq_refl k = (e.beq_iff k k).1 refl

  pub beq_comm : (a b : K) → e.beq a b ≡ e.beq b a
  beq_comm a b = ground (arith, e.beq_iff a b, e.beq_iff b a)

  unfoldable pub contains : List K → K → Bool
  contains [] a = false
  contains (x ∷ xs) a = e.beq x a || contains xs a

  -- The keys are pairwise different.
  unfoldable pub distinct : List K → Bool
  unfolding contains
  distinct [] = true
  distinct (x ∷ xs) = not (contains xs x) && distinct xs

abbrev pub Map {ℓ κ} : Type ℓ → Type κ → Type (ℓ ⊔ κ)
Map K V = List (K × V)

module _ {ℓ κ} {K : Type ℓ} {V : Type κ} ⦃e : Eq K⦄ where
  unfoldable pub lookup : K → Map K V → Option V
  lookup k [] = none
  lookup k ((j, v) ∷ m) = if e.beq j k then some v else lookup k m

  unfoldable pub insert : K → V → Map K V → Map K V
  insert k v [] = (k, v) ∷ []
  insert k v ((j, w) ∷ m) = if e.beq j k then (j, v) ∷ m else (j, w) ∷ insert k v m

  unfoldable pub delete : K → Map K V → Map K V
  delete k [] = []
  delete k ((j, w) ∷ m) = if e.beq j k then delete k m else (j, w) ∷ delete k m

  -- `for k, v := range m { if !p(k, v) { delete(m, k) } }`
  unfoldable pub retain : (K → V → Bool) → Map K V → Map K V
  retain p [] = []
  retain p ((j, w) ∷ m) = if p j w then (j, w) ∷ retain p m else retain p m

  pub lookup-insert :
      (k j : K) (v : V) (m : Map K V)
      → lookup j (insert k v m) ≡ (if e.beq k j then some v else lookup j m)
  unfolding lookup insert
  lookup-insert k j v [] = refl
  lookup-insert k j v ((i, w) ∷ m) =
      ground (arith, e.beq_iff k j, e.beq_iff i k, e.beq_iff i j, lookup-insert k j v m)

  pub lookup-delete :
      (k j : K) (m : Map K V) → lookup j (delete k m) ≡ (if e.beq k j then none else lookup j m)
  unfolding lookup delete
  lookup-delete k j [] = ground arith
  lookup-delete k j ((i, w) ∷ m) =
      ground (arith, e.beq_iff k j, e.beq_iff i k, e.beq_iff i j, lookup-delete k j m)

  -- Where the test reads the key alone, the entries of a key go or stay together.
  pub lookup-retain :
      (p : K → Bool) (j : K) (m : Map K V)
      → lookup j (retain (λ k v. p k) m) ≡ (if p j then lookup j m else none)
  unfolding lookup retain
  lookup-retain p j [] = ground arith
  lookup-retain p j ((i, w) ∷ m) = elim (Bool-cases (e.beq i j)) [
    | inl h ↦ ground (arith, ap p ((e.beq_iff i j).0 h), lookup-retain p j m)
    | inr h ↦ ground (arith, lookup-retain p j m)
  ]

-- Go's `map[K]struct{}`.
abbrev pub KeySet {ℓ} : Type ℓ → Type ℓ
KeySet K = Map K (Unit {0})

module _ {ℓ} {K : Type ℓ} ⦃e : Eq K⦄ where
  abbrev pub member : K → KeySet K → Bool
  member k s = is_some (lookup k s)

  abbrev pub add : K → KeySet K → KeySet K
  add k s = insert k tt s

  pub member-add : (k j : K) (s : KeySet K) → member j (add k s) ≡ (e.beq k j || member j s)
  member-add k j s = ground (arith, lookup-insert k j tt s)

  pub member-delete :
      (k j : K) (s : KeySet K) → member j (delete k s) ≡ (not (e.beq k j) && member j s)
  member-delete k j s = ground (arith, lookup-delete k j s)
