-- ===== src/Bootstrap/Suffix.antt =====
-- The search for the longest suffix of a name that a table has: KnownWHOISServer, and the loop of
-- ServersFor, in src/internal/monitor/bootstrap.go.
use domain_monitor.Base.{
  ℕ, zero, suc, ◌<◌, ◌≡◌, refl, List, [], ◌∷◌, Option, none, some, arith, ◌==◌, if◌then◌else◌,
  Option-cases, inl, inr, first_of, get_or_else, get_elem?, lookup,
}
use domain_monitor.Text.{Text, text_eq, Unicode}
use domain_monitor.Utils.{normalize_domain_to_ascii_text}
use domain_monitor.Bootstrap.Tables.{cctld_whois_servers}

-- What stands behind each dot of a name.
unfoldable pub behind_dots : Text → List Text
behind_dots [] = []
behind_dots (c ∷ s) = let rest = behind_dots s in if c == b'.' then s ∷ rest else rest

unfoldable pub suffixes : Text → List Text
unfolding behind_dots
suffixes name = name ∷ behind_dots name

-- The loop over the suffixes, with what a table has for one.
unfoldable pub longest_match {ℓ} : {A : Type ℓ} → (Text → Option A) → List Text → Option A
longest_match f [] = none
longest_match f (s ∷ rest) = first_of (f s) (longest_match f rest)

unfoldable pub known_whois_server : Unicode → (Text → Option Text) → Text → Text
unfolding longest_match suffixes
known_whois_server u idna domain =
    get_or_else
      (longest_match (λ s. lookup s cctld_whois_servers)
        (suffixes (normalize_domain_to_ascii_text u idna domain)))
      []

-- A step of the search past a suffix that has nothing.
later {ℓ} :
    {A : Type ℓ} (f : Text → Option A) (s : Text) (rest : List Text) (i : ℕ)
    → f s ≡ none
    → ((j : ℕ) (t : Text) → j < i → get_elem? rest j ≡ some t → f t ≡ none)
    → (j : ℕ) (t : Text) → j < suc i
    → get_elem? (s ∷ rest) j ≡ some t
    → f t ≡ none
later f s rest i n before zero t lt at = ground (arith, n, at)
later f s rest i n before (suc j) t lt at = before j t (omega (arith, lt)) at

-- What is found is that of some suffix, and no longer one has any.
pub longest_match_lem {ℓ} :
    {A : Type ℓ} (f : Text → Option A) (names : List Text) (a : A)
    → longest_match f names ≡ some a
    → (i : ℕ) × (s : Text) × (get_elem? names i ≡ some s)
      × (f s ≡ some a)
      × ((j : ℕ) (t : Text) → j < i → get_elem? names j ≡ some t → f t ≡ none)
unfolding longest_match
longest_match_lem f [] a h = ground (arith, h)
longest_match_lem f (s ∷ rest) a h = elim (Option-cases (f s)) [
  | inl n ↦
      let (i, t, at, e, before) = longest_match_lem f rest a (rw (← h, n) refl) in
      (suc i, t, at, e, later f s rest i n before)
  | inr (b, e) ↦ (zero, s, refl, ground (arith, h, e), λ j t lt at. ground (arith, lt))
]
