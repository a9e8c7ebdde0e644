-- ===== src/Utils/Unique.antt =====
-- What DeduplicateNonEmptyStrings keeps.
use domain_monitor.Base.{
  ◌≡◌, refl, inl, inr, ap, ◌∙◌, Bool, true, false, not, ◌&&◌, ◌||◌, List, [], ◌∷◌, ◌++◌, arith,
  is_empty, any, contains, distinct, KeySet, member, add, member-add, lookup, Bool-cases, beq_comm,
}
use domain_monitor.Text.{Text, text_beq, text_beq_iff, text_eq, trim_space}
use domain_monitor.Utils.{deduplicate, deduplicate_non_empty_strings}

pub contains-append :
    (xs : List Text) (c y : Text) → contains (xs ++ c ∷ []) y ≡ (contains xs y || text_beq c y)
unfolding contains
contains-append [] c y = ground arith
contains-append (x ∷ xs) c y = ground (arith, contains-append xs c y)

pub distinct-append :
    (xs : List Text) (c : Text) → distinct (xs ++ c ∷ []) ≡ (distinct xs && not (contains xs c))
unfolding distinct contains
distinct-append [] c = refl
distinct-append (x ∷ xs) c =
    ground (arith, distinct-append xs c, contains-append xs c x, beq_comm x c)

-- The set of what was seen is that of the result.
abbrev pub Tracks : KeySet Text → List Text → Type 0
Tracks seen result = (y : Text) → member y seen ≡ contains result y

pub add-Tracks :
    (c : Text) (seen : KeySet Text) (result : List Text)
    → Tracks seen result
    → Tracks (add c seen) (result ++ c ∷ [])
add-Tracks c seen result t y = ground (arith, member-add c y seen, contains-append result c y, t y)

-- Whether a text that is not empty is one of the items, trimmed.
unfoldable pub is_item : List Text → Text → Bool
is_item items x = not (is_empty x) && any (λ i. text_beq (trim_space i) x) items

skipped_item :
    (c x : Text) (found rest : Bool)
    → (text_beq c x ≡ true → (is_empty x || found) ≡ true)
    → (found || not (is_empty x) && rest) ≡ (found || not (is_empty x) && (text_beq c x || rest))
skipped_item c x found rest h = ground (arith, h)

kept_item :
    (c x : Text) (found rest next : Bool)
    → next ≡ (found || text_beq c x)
    → (text_beq c x ≡ true → is_empty x ≡ false)
    → (next || not (is_empty x) && rest) ≡ (found || not (is_empty x) && (text_beq c x || rest))
kept_item c x found rest next e h = ground (arith, e, h)

deduplicate-contains :
    (items : List Text) (seen : KeySet Text) (result : List Text) (x : Text)
    → Tracks seen result
    → contains (deduplicate items seen result) x ≡ (contains result x || is_item items x)
unfolding deduplicate is_item any
deduplicate-contains [] seen result x t = ground arith
deduplicate-contains (item ∷ items) seen result x t =
    let c = trim_space item in
    let same = text_beq_iff c x in
    elim (Bool-cases (is_empty c || member c seen)) [
      | inl skip ↦
          rw (skip, deduplicate)
            (deduplicate-contains items seen result x t
              ∙ skipped_item c x (contains result x) (any (λ i. text_beq (trim_space i) x) items)
                  (λ h. ground (
                    arith,
                    skip,
                    t c,
                    ap (λ d. contains result d) (same.0 h),
                    ap (λ (d : Text). is_empty d) (same.0 h),
                  )))
      | inr kept ↦
          rw (kept, deduplicate)
            (deduplicate-contains items (add c seen) (result ++ c ∷ []) x
                (add-Tracks c seen result t)
              ∙ kept_item c x (contains result x) (any (λ i. text_beq (trim_space i) x) items)
                  (contains (result ++ c ∷ []) x) (contains-append result c x)
                  (λ h. ground (arith, kept, ap (λ (d : Text). is_empty d) (same.0 h))))
    ]

deduplicate-distinct :
    (items : List Text) (seen : KeySet Text) (result : List Text)
    → Tracks seen result
    → distinct result ≡ true
    → distinct (deduplicate items seen result) ≡ true
unfolding deduplicate
deduplicate-distinct [] seen result t h = h
deduplicate-distinct (item ∷ items) seen result t h =
    let c = trim_space item in
    elim (Bool-cases (is_empty c || member c seen)) [
      | inl skip ↦ rw (skip, deduplicate) (deduplicate-distinct items seen result t h)
      | inr kept ↦
          rw (kept, deduplicate)
            (deduplicate-distinct items (add c seen) (result ++ c ∷ []) (add-Tracks c seen result t)
              (distinct-append result c ∙ ground (arith, h, kept, t c)))
    ]

-- On every list: the result has no text twice, and has exactly the items, trimmed, that are not
-- empty.
deduplicate_non_empty_strings_lem :
    (items : List Text) (x : Text)
    → (distinct (deduplicate_non_empty_strings items) ≡ true)
      × (contains (deduplicate_non_empty_strings items) x ≡ is_item items x)
unfolding deduplicate_non_empty_strings contains distinct lookup
deduplicate_non_empty_strings_lem items x = (
  deduplicate-distinct items [] [] (λ y. refl) refl,
  deduplicate-contains items [] [] x (λ y. refl),
)
