-- ===== src/Lookup/Statuses/Kept.antt =====
-- Which statuses NormalizeDomainStatuses keeps.
use domain_monitor.Base.{
  ◌≡◌, refl, inl, inr, ap, ◌∙◌, Bool, true, not, ◌&&◌, ◌||◌, List, [], ◌∷◌, ◌++◌, map, arith,
  is_empty, any, keep, contains, distinct, KeySet, member, add, member-add, lookup, Bool-cases,
}
use domain_monitor.Text.{Text, text_beq, text_beq_iff, text_eq, Unicode, to_lower}
use domain_monitor.Utils.Unique.{distinct-append, Tracks, add-Tracks}
use domain_monitor.Lookup.Statuses.{
  normalize_epp_status, collect_statuses, specific_forms, is_redundant, normalize_domain_statuses,
}

any-cong : (p q : Text → Bool) (xs : List Text) → ((x : Text) → p x ≡ q x) → any p xs ≡ any q xs
unfolding any
any-cong p q [] h = refl
any-cong p q (x ∷ xs) h = ground (arith, h x, any-cong p q xs h)

map-append_one :
    (f : Text → Text) (xs : List Text) (x : Text) → map f (xs ++ x ∷ []) ≡ map f xs ++ f x ∷ []
map-append_one f [] x = refl
map-append_one f (y ∷ ys) x = ap (λ t. f y ∷ t) (map-append_one f ys x)

module _ (f : Text → Text) (red : Text → Bool) where
  abbrev kept : List Text → List Text
  kept ns = map f (keep (λ n. not (red (f n))) ns)

  contains-kept :
      (ns : List Text) (k : Text) → contains (kept ns) k ≡ (contains (map f ns) k && not (red k))
  unfolding contains keep
  contains-kept [] k = refl
  contains-kept (n ∷ ns) k = elim (Bool-cases (red (f n))) [
    | inl e ↦
        rw (keep, e)
          (ground (
            arith,
            contains-kept ns k,
            e,
            λ (h : text_beq (f n) k ≡ true). ap red ((text_beq_iff (f n) k).0 h),
          ))
    | inr e ↦
        rw (keep, e)
          (ground (
            arith,
            contains-kept ns k,
            e,
            λ (h : text_beq (f n) k ≡ true). ap red ((text_beq_iff (f n) k).0 h),
          ))
  ]

  distinct-kept : (ns : List Text) → distinct (map f ns) ≡ true → distinct (kept ns) ≡ true
  unfolding distinct keep
  distinct-kept [] h = refl
  distinct-kept (n ∷ ns) h = elim (Bool-cases (red (f n))) [
    | inl e ↦ rw (keep, e) (distinct-kept ns (ground arith))
    | inr e ↦ rw (keep, e) (ground (arith, distinct-kept ns, contains-kept ns (f n)))
  ]

skipped_key :
    (empty known same old later : Bool)
    → (empty || known) ≡ true
    → (same ≡ true → known ≡ old)
    → (old || later) ≡ (old || (not empty && same || later))
skipped_key empty known same old later e h = ground (arith, h)

nothing_seen : Tracks [] []
unfolding lookup contains
nothing_seen y = refl

module _ (u : Unicode) where
  -- Whether a status has this key.
  unfoldable pub names_key : Text → Text → Bool
  names_key k s =
      let norm = normalize_epp_status u s in not (is_empty norm) && text_beq (to_lower u norm) k

  abbrev keys : List Text → List Text
  keys normalized = map (to_lower u) normalized

  collect_statuses-Tracks :
      (statuses : List Text) (seen : KeySet Text) (normalized : List Text)
      → Tracks seen (keys normalized)
      → let (seen', normalized') = collect_statuses u statuses seen normalized in
        Tracks seen' (keys normalized')
  unfolding collect_statuses
  collect_statuses-Tracks [] seen normalized t = t
  collect_statuses-Tracks (s ∷ rest) seen normalized t =
      let norm = normalize_epp_status u s in
      let key = to_lower u norm in
      elim (Bool-cases (is_empty norm || member key seen)) [
        | inl e ↦ rw (e, collect_statuses) (collect_statuses-Tracks rest seen normalized t)
        | inr e ↦
            rw (e, collect_statuses)
              (collect_statuses-Tracks rest (add key seen) (normalized ++ norm ∷ []) (λ y.
                rw (map-append_one (to_lower u) normalized norm)
                  (add-Tracks key seen (keys normalized) t y)))
      ]

  collect_statuses-member :
      (k : Text) (statuses : List Text) (seen : KeySet Text) (normalized : List Text)
      → member k (collect_statuses u statuses seen normalized).0
        ≡ (member k seen || any (names_key k) statuses)
  unfolding collect_statuses any names_key
  collect_statuses-member k [] seen normalized = ground arith
  collect_statuses-member k (s ∷ rest) seen normalized =
      let norm = normalize_epp_status u s in
      let key = to_lower u norm in
      let later = any (names_key k) rest in
      elim (Bool-cases (is_empty norm || member key seen)) [
        | inl e ↦
            rw (e, collect_statuses)
              (collect_statuses-member k rest seen normalized
                ∙ skipped_key (is_empty norm) (member key seen) (text_beq key k) (member k seen)
                    later e (λ h. ap (λ d. member d seen) ((text_beq_iff key k).0 h)))
        | inr e ↦
            rw (e, collect_statuses)
              (collect_statuses-member k rest (add key seen) (normalized ++ norm ∷ [])
                ∙ ground (arith, e, member-add key k seen))
      ]

  collect_statuses-distinct :
      (statuses : List Text) (seen : KeySet Text) (normalized : List Text)
      → Tracks seen (keys normalized)
      → distinct (keys normalized) ≡ true
      → distinct (keys (collect_statuses u statuses seen normalized).1) ≡ true
  unfolding collect_statuses
  collect_statuses-distinct [] seen normalized t h = h
  collect_statuses-distinct (s ∷ rest) seen normalized t h =
      let norm = normalize_epp_status u s in
      let key = to_lower u norm in
      let longer = map-append_one (to_lower u) normalized norm in
      elim (Bool-cases (is_empty norm || member key seen)) [
        | inl e ↦ rw (e, collect_statuses) (collect_statuses-distinct rest seen normalized t h)
        | inr e ↦
            rw (e, collect_statuses)
              (collect_statuses-distinct rest (add key seen) (normalized ++ norm ∷ [])
                (λ y. rw longer (add-Tracks key seen (keys normalized) t y))
                (rw longer (distinct-append (keys normalized) key ∙ ground (arith, h, e, t key))))
      ]

  -- Of any statuses: the keys of the canonical ones kept are pairwise different, and they are
  -- exactly the keys of the given ones, but for those that say less than a more specific status
  -- for a client or a server that is given too.
  pub normalize_domain_statuses_lem :
      (statuses : List Text) (k : Text)
      → let out = map (to_lower u) (normalize_domain_statuses u statuses) in
        let given = λ (key : Text). any (names_key key) statuses in
        (distinct out ≡ true) × (contains out k ≡ (given k && not (any given (specific_forms k))))
  unfolding normalize_domain_statuses is_redundant distinct lookup
  normalize_domain_statuses_lem statuses k =
      let seen = (collect_statuses u statuses [] []).0 in
      let normalized = (collect_statuses u statuses [] []).1 in
      let tracks = collect_statuses-Tracks statuses [] [] (λ y. nothing_seen y) in
      let seen_is : (y : Text) → member y seen ≡ any (names_key y) statuses =
        λ y. collect_statuses-member y statuses [] [] in
      let red = is_redundant seen in
      let redundant : red k ≡ any (λ key. any (names_key key) statuses) (specific_forms k) =
        any-cong (λ form. member form seen) (λ key. any (names_key key) statuses) (specific_forms k)
          seen_is in
      (
        distinct-kept (to_lower u) red normalized
            (collect_statuses-distinct statuses [] [] nothing_seen refl),
        contains-kept (to_lower u) red normalized k ∙ cc (tracks k, seen_is k, redundant),
      )
