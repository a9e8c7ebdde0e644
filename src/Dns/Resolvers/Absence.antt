-- ===== src/Dns/Resolvers/Absence.antt =====
-- What an answer that a name does not exist rests on.
use domain_monitor.Base.{
  ℕ, ◌≤◌, ◌≡◌, refl, inl, inr, Bool, true, false, ◌||◌, List, [], ◌∷◌, ◌++◌, map, arith, all, All,
  All-append, length, Bool-cases, KeySet, ◌==◌, member, add, member-add, contains, distinct,
  beq_comm,
}
use domain_monitor.Text.{Text, codes, text_beq, text_beq_iff, text_eq, Unicode, to_lower}
use domain_monitor.Errors.{MaybeError, error_is, nxdomain}
use domain_monitor.Types.Results.{DnsObservation}
use domain_monitor.Dns.Resolvers.{
  is_usable, default_port, collect_dns_observations, query_dns, max_network_attempts,
}
use domain_monitor.Dns.Resolvers.Unanimity.{unanimous_absence, decide_selected-nxdomain}

contains-snoc :
    (xs : List Text) (x y : Text) → contains (xs ++ x ∷ []) y ≡ (contains xs y || text_beq x y)
unfolding contains
contains-snoc [] x y = ground arith
contains-snoc (z ∷ xs) x y = ground (arith, contains-snoc xs x y)

distinct-snoc :
    (xs : List Text) (x : Text)
    → distinct xs ≡ true
    → contains xs x ≡ false
    → distinct (xs ++ x ∷ []) ≡ true
unfolding distinct contains
distinct-snoc [] x d c = refl
distinct-snoc (y ∷ xs) x d c =
    ground (arith, d, c, distinct-snoc xs x, contains-snoc xs x y, beq_comm x y)

-- What is not in the set is not among texts that are.
not_noted :
    (seen : KeySet Text) (xs : List Text) (x : Text)
    → all (λ y. member y seen) xs ≡ true
    → member x seen ≡ false
    → contains xs x ≡ false
unfolding all contains
not_noted seen [] x h k = refl
not_noted seen (y ∷ xs) x h k = ground (arith, h, k, text_beq_iff y x, not_noted seen xs x)

noted-add :
    (seen : KeySet Text) (xs : List Text) (x : Text)
    → all (λ y. member y seen) xs ≡ true
    → all (λ y. member y (add x seen)) xs ≡ true
unfolding all
noted-add seen [] x h = refl
noted-add seen (y ∷ xs) x h = ground (arith, h, member-add x y seen, noted-add seen xs x)

noted-snoc :
    (seen : KeySet Text) (xs : List Text) (x : Text)
    → all (λ y. member y seen) xs ≡ true
    → all (λ y. member y (add x seen)) (xs ++ x ∷ []) ≡ true
unfolding all
noted-snoc seen [] x h = ground (arith, member-add x x seen, text_beq_iff x x)
noted-snoc seen (y ∷ xs) x h = ground (arith, h, member-add x y seen, noted-snoc seen xs x)

-- The observation is what a configured resolver answered.
unfoldable pub Answered : (Text → List Text × MaybeError) → List Text → DnsObservation → Type 0
Answered query resolvers o =
    (contains resolvers o.resolver ≡ true)
    × (o.records ≡ (query o.resolver).0)
    × (o.err ≡ (query o.resolver).1)

module _ (u : Unicode) (has_port : Text → Bool) (join_host_port : Text → Text → Text) where
  -- Where a resolver is reached, without regard to case.
  abbrev pub endpoint : Text → Text
  endpoint r = to_lower u (default_port u has_port join_host_port r (codes "53"))

  abbrev pub endpoints : List DnsObservation → List Text
  endpoints observations = map (λ (o : DnsObservation). endpoint o.resolver) observations

  -- What the loop has selected: answers of configured resolvers, at different endpoints, all noted.
  record Separate (query : Text → List Text × MaybeError) (configured : List Text)
      (seen : KeySet Text) (selected : List DnsObservation) : Type 0 where
    apart : distinct (endpoints selected) ≡ true
    noted : all (λ e. member e seen) (endpoints selected) ≡ true
    answered : All (Answered query configured) selected

  endpoints-append :
      (xs : List DnsObservation) (o : DnsObservation)
      → endpoints (xs ++ o ∷ []) ≡ endpoints xs ++ endpoint o.resolver ∷ []
  endpoints-append [] o = refl
  endpoints-append (x ∷ xs) o = rw (endpoints-append xs o) refl

  skip-Separate :
      (query : Text → List Text × MaybeError) (configured : List Text) (seen : KeySet Text)
      (selected : List DnsObservation) (e : Text)
      → Separate query configured seen selected
      → Separate query configured (add e seen) selected
  skip-Separate query configured seen selected e v = record {
    apart = v.apart;
    noted = noted-add seen (endpoints selected) e v.noted;
    answered = v.answered;
  }

  take-Separate :
      (query : Text → List Text × MaybeError) (configured : List Text) (seen : KeySet Text)
      (selected : List DnsObservation) (o : DnsObservation)
      → Separate query configured seen selected
      → member (endpoint o.resolver) seen ≡ false
      → Answered query configured o
      → Separate query configured (add (endpoint o.resolver) seen) (selected ++ o ∷ [])
  take-Separate query configured seen selected o v new a =
      let e = endpoint o.resolver in
      let old = endpoints selected in
      record {
        apart =
            rw (endpoints-append selected o)
              (distinct-snoc old e v.apart (not_noted seen old e v.noted new));
        noted = rw (endpoints-append selected o) (noted-snoc seen old e v.noted);
        answered = All-append (Answered query configured) selected (o ∷ []) v.answered (a, tt);
      }

  -- The observations that are selected in the end.
  abbrev Witnessed : (Text → List Text × MaybeError) → List Text → List DnsObservation → Type 0
  Witnessed query configured selected =
      (distinct (endpoints selected) ≡ true) × All (Answered query configured) selected

  collect_dns_observations-Witnessed :
      (needed : ℕ) (query : Text → List Text × MaybeError) (configured resolvers : List Text)
      (seen : KeySet Text) (observations selected : List DnsObservation)
      → ((r : Text) → contains resolvers r ≡ true → contains configured r ≡ true)
      → Separate query configured seen selected
      → Witnessed query configured
          (collect_dns_observations u has_port join_host_port needed query resolvers seen
            observations selected).1
  unfolding collect_dns_observations contains Answered
  collect_dns_observations-Witnessed needed query configured [] seen observations selected h v =
      (v.apart, v.answered)
  collect_dns_observations-Witnessed needed query configured (r ∷ resolvers) seen observations
        selected h v =
      let o : DnsObservation = record { resolver = r; records = (query r).0; err = (query r).1 } in
      let more : (x : Text) → contains resolvers x ≡ true → contains configured x ≡ true =
        λ x m. h x (ground (arith, m)) in
      let known : contains configured r ≡ true = h r (ground (arith, text_beq_iff r r)) in
      elim (Bool-cases (member (endpoint r) seen)) [
        | inl e ↦
            rw (e, collect_dns_observations)
              (collect_dns_observations-Witnessed needed query configured resolvers seen
                observations selected more v)
        | inr e ↦ elim (Bool-cases (length observations == max_network_attempts)) [
          | inl full ↦ rw (e, full, collect_dns_observations) (v.apart, v.answered)
          | inr room ↦
              let next = take-Separate query configured seen selected o v e (known, refl, refl) in
              elim (Bool-cases (is_usable o.err)) [
                | inr bad ↦
                    rw (e, room, bad, collect_dns_observations)
                      (collect_dns_observations-Witnessed needed query configured resolvers
                        (add (endpoint r) seen) (observations ++ o ∷ []) selected more
                        (skip-Separate query configured seen selected (endpoint r) v))
                | inl good ↦ elim (Bool-cases (length (selected ++ o ∷ []) == needed)) [
                  | inl full ↦
                      rw (e, room, good, full, collect_dns_observations) (next.apart, next.answered)
                  | inr less ↦
                      rw (e, room, good, less, collect_dns_observations)
                        (collect_dns_observations-Witnessed needed query configured resolvers
                          (add (endpoint r) seen) (observations ++ o ∷ []) (selected ++ o ∷ []) more
                          next)
                ]
              ]
        ]
      ]

-- Where at least two resolvers are configured, the answer is that the name does not exist exactly when
-- the first two of the selected observations both say so. Every selected observation is what a
-- configured resolver answered when it was asked alone, and no two of them come from the same
-- endpoint, so neither one resolver, however often it is listed, nor a failure can pass for absence.
pub query_dns-nxdomain :
    (u : Unicode) (has_port : Text → Bool) (join_host_port : Text → Text → Text)
    (query : List Text → List Text × MaybeError) (hostname : Text) (resolvers : List Text)
    → 2 ≤ length resolvers
    → let selected =
        (collect_dns_observations u has_port join_host_port 2
          (λ r. query (r ∷ []))
          resolvers
          []
          []
          []).1 in
      (error_is (query_dns u has_port join_host_port query hostname resolvers).1 nxdomain
        ≡ unanimous_absence selected)
      × (distinct (endpoints u has_port join_host_port selected) ≡ true)
      × All (Answered (λ r. query (r ∷ [])) resolvers) selected
unfolding query_dns all distinct
query_dns-nxdomain u has_port join_host_port query hostname resolvers h =
    let found =
      collect_dns_observations u has_port join_host_port 2 (λ r. query (r ∷ [])) resolvers [] []
        [] in
    let witnessed =
      collect_dns_observations-Witnessed u has_port join_host_port 2 (λ r. query (r ∷ [])) resolvers
        resolvers [] [] [] (λ r m. m) (record { apart = refl; noted = refl; answered = tt }) in
    (ground (arith, h, decide_selected-nxdomain hostname found.0 found.1), witnessed.0, witnessed.1)
