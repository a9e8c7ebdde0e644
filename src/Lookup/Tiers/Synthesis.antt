-- ===== src/Lookup/Tiers/Synthesis.antt =====
-- What the merged data of a registry and a registrar promise.
use domain_monitor.Base.{
  ◌≡◌, refl, ap, ◌∙◌, inl, inr, Bool, true, false, not, ◌&&◌, ◌||◌, [], ◌∷◌, ◌++◌, map, Option,
  none, some, arith, leb, if◌then◌else◌, is_empty, any, any-append, contains, Option-cases,
}
use mathlib.Core.Path.{fun_ext}
use domain_monitor.Text.{Text, text_eq, Unicode, to_lower}
use domain_monitor.Types.Condition.{Time}
use domain_monitor.Types.Results.{DomainTierData}
use domain_monitor.Lookup.Statuses.{specific_forms}
use domain_monitor.Lookup.Statuses.Kept.{names_key, normalize_domain_statuses_lem}
use domain_monitor.Lookup.Tiers.{
  merge_dates, synthesize_tier_expiration, synthesize_tier_data, merge_tiers,
  synthesize_tier_nameservers,
}

-- A date that can be read is not before the chosen one, which can be read too.
abbrev pub no_later : Option Time → Option Time → Bool
no_later chosen none = true
no_later none (some t) = false
no_later (some c) (some t) = leb c t

no_later_self : (o : Option Time) → no_later o o ≡ true
no_later_self none = refl
no_later_self (some t) = ground arith

module _ (parse : Text → Option Time) (layout : Time → Text) where
  merge_dates-no_later :
      (a b : Text)
      → let c = parse (merge_dates parse layout a b).0 in
        (no_later c (parse a) ≡ true) × (no_later c (parse b) ≡ true)
  unfolding merge_dates
  merge_dates-no_later a b = elim (Option-cases (parse a)) [
    | inl ea ↦ elim (Option-cases (parse b)) [
      | inl eb ↦ rw (ea, eb) (refl, refl)
      | inr (t, eb) ↦ rw (ea, eb) (refl, ground (arith, eb))
    ]
    | inr (r, ea) ↦ elim (Option-cases (parse b)) [
      | inl eb ↦ rw (ea, eb) (ground (arith, ea), refl)
      | inr (t, eb) ↦ rw (ea, eb) (ground (arith, ea, eb), ground (arith, ea, eb))
    ]
  ]

  -- The choice between two texts, either of which may be empty.
  expiration-no_later :
      (a b : DomainTierData) (x y : Text)
      → a.expiration ≡ x
      → b.expiration ≡ y
      → parse [] ≡ none
      → let c = parse (synthesize_tier_expiration parse layout (some a) (some b)).0 in
        (no_later c (parse x) ≡ true) × (no_later c (parse y) ≡ true)
  unfolding synthesize_tier_expiration
  expiration-no_later a b [] [] ea eb h = rw (ea, eb, h) (refl, refl)
  expiration-no_later a b [] (d ∷ y) ea eb h = rw (ea, eb, h) (refl, no_later_self (parse (d ∷ y)))
  expiration-no_later a b (c ∷ x) [] ea eb h = rw (ea, eb, h) (no_later_self (parse (c ∷ x)), refl)
  expiration-no_later a b (c ∷ x) (d ∷ y) ea eb h =
      rw (ea, eb) (merge_dates-no_later (c ∷ x) (d ∷ y))

-- Of the data of both tiers: the expiration that is kept is never later than a date of either that
-- can be read; the domain is signed where one says so; the public nameservers are the registry's
-- where it has any; and the statuses, by their keys, are those of both, but for the ones that say
-- less than a more specific status of either.
pub synthesize_tier_data-safe :
    (u : Unicode) (parse : Text → Option Time) (layout : Time → Text) (a b : DomainTierData)
    (k : Text)
    → parse [] ≡ none
    → let s = synthesize_tier_data u parse layout (some a) (some b) in
      let given = λ (key : Text).
        any (names_key u key) a.domain_status || any (names_key u key) b.domain_status in
      (no_later (parse s.expiration) (parse a.expiration) ≡ true)
      × (no_later (parse s.expiration) (parse b.expiration) ≡ true)
      × (s.dnssec ≡ (a.dnssec || b.dnssec))
      × (s.nameservers ≡ (if is_empty a.nameservers then b.nameservers else a.nameservers))
      × (contains (map (to_lower u) s.domain_status) k
          ≡ (given k && not (any given (specific_forms k))))
unfolding synthesize_tier_data merge_tiers synthesize_tier_nameservers
synthesize_tier_data-safe u parse layout a b k h =
    let (first, second) =
      expiration-no_later parse layout a b a.expiration b.expiration refl refl h in
    let (unique, kept) = normalize_domain_statuses_lem u (a.domain_status ++ b.domain_status) k in
    let both : (key : Text)
        → any (names_key u key) (a.domain_status ++ b.domain_status)
          ≡ (any (names_key u key) a.domain_status || any (names_key u key) b.domain_status) =
      λ key. any-append (names_key u key) a.domain_status b.domain_status in
    (
      first,
      second,
      refl,
      ground arith,
      kept ∙ ap (λ (g : Text → Bool). g k && not (any g (specific_forms k))) (fun_ext both),
    )
