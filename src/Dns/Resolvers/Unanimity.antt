-- ===== src/Dns/Resolvers/Unanimity.antt =====
-- What one resolver alone cannot bring about.
use domain_monitor.Base.{
  ℕ, ◌≤◌, ◌<◌, ◌≡◌, refl, inl, inr, Bool, true, false, ◌&&◌, ◌||◌, List, [], ◌∷◌, ◌++◌, none, some,
  any, all, ◌∙◌, any-append, length, length-append, arith, Bool-cases, KeySet, ◌==◌, member, add,
}
use domain_monitor.Text.{Text, codes, text_eq, Unicode, to_lower}
use domain_monitor.Errors.{
  Error, MaybeError, error_is, nxdomain, errors_join, sentinel_number, Sentinel,
}
use domain_monitor.Types.Results.{DnsObservation}
use domain_monitor.Dns.Resolvers.{
  actionable, incomplete_resolver_cause, incomplete_evidence, observation_errors, reconcile,
  decide_selected, is_usable, default_port, collect_dns_observations, max_network_attempts,
}

-- errors.Join has what either part has.
joined_is :
    (e : Error) (rest : MaybeError) (s : Sentinel)
    → error_is
        (elim rest [
          | none ↦ some e
          | some f ↦
              some (record { message = e.message ++ (10 ∷ f.message); chain = e.chain ++ f.chain })
        ])
        s
      ≡ (error_is (some e) s || error_is rest s)
unfolding error_is
joined_is e none s = ground arith
joined_is e (some f) s = any-append (λ t. sentinel_number t == sentinel_number s) e.chain f.chain

errors_join-error_is :
    (e : Error) (errs : List MaybeError) (s : Sentinel)
    → error_is (errors_join (some e ∷ errs)) s
      ≡ (error_is (some e) s || error_is (errors_join errs) s)
unfolding errors_join
errors_join-error_is e errs s = joined_is e (errors_join errs) s

errors_join-actionable :
    (errs : List MaybeError) → error_is (errors_join (actionable errs)) nxdomain ≡ false
unfolding actionable errors_join error_is
errors_join-actionable [] = refl
errors_join-actionable (none ∷ errs) = errors_join-actionable errs
errors_join-actionable (some e ∷ errs) = elim (Bool-cases (error_is (some e) nxdomain)) [
  | inl h ↦ rw h (errors_join-actionable errs)
  | inr h ↦ rw h (
      errors_join-error_is e (actionable errs) nxdomain
      ∙ ground (arith, h, errors_join-actionable errs))
]

-- The cause that is named for incomplete evidence is never that a name does not exist.
incomplete_evidence-nxdomain :
    (errs : List MaybeError) → error_is (incomplete_evidence errs) nxdomain ≡ false
unfolding incomplete_evidence incomplete_resolver_cause error_is any
incomplete_evidence-nxdomain errs = ground (arith, errors_join-actionable errs)

-- Both of the first two of the selected observations say that the name does not exist.
unfoldable pub unanimous_absence : List DnsObservation → Bool
unanimous_absence (a ∷ b ∷ selected) = error_is a.err nxdomain && error_is b.err nxdomain
unanimous_absence (a ∷ []) = false
unanimous_absence [] = false

errors_join-absence :
    (a b : MaybeError)
    → error_is a nxdomain ≡ true
    → error_is b nxdomain ≡ true
    → error_is (errors_join (a ∷ b ∷ [])) nxdomain ≡ true
unfolding errors_join error_is
errors_join-absence none b h k = cc h
errors_join-absence (some e) b h k = errors_join-error_is e (b ∷ []) nxdomain ∙ ground (arith, h)

reconcile-nxdomain :
    (hostname : Text) (a b : DnsObservation)
    → error_is (reconcile hostname a b).1 nxdomain
      ≡ (error_is a.err nxdomain && error_is b.err nxdomain)
unfolding reconcile error_is any
reconcile-nxdomain hostname a b =
    ground
      (arith, incomplete_evidence-nxdomain (a.err ∷ b.err ∷ []), errors_join-absence a.err b.err)

pub decide_selected-nxdomain :
    (hostname : Text) (observations selected : List DnsObservation)
    → error_is (decide_selected hostname observations selected).1 nxdomain
      ≡ unanimous_absence selected
unfolding decide_selected unanimous_absence
decide_selected-nxdomain hostname observations [] =
    incomplete_evidence-nxdomain (observation_errors observations)
decide_selected-nxdomain hostname observations (a ∷ []) =
    incomplete_evidence-nxdomain (observation_errors observations)
decide_selected-nxdomain hostname observations (a ∷ b ∷ selected) = reconcile-nxdomain hostname a b

-- What the loop has: at most three lookups, fewer than `needed` selected ones, all usable.
record Bounded (observations selected : List DnsObservation) (needed : ℕ) : Type 0 where
  few : length observations ≤ 3
  enough : length selected ≤ needed
  usable : all (λ (o : DnsObservation). is_usable o.err) selected ≡ true

all-append :
    {A : Type 0} (p : A → Bool) (xs : List A) (a : A)
    → all p xs ≡ true
    → p a ≡ true
    → all p (xs ++ a ∷ []) ≡ true
unfolding all
all-append p [] a h k = ground (arith, k)
all-append p (x ∷ xs) a h k = ground (arith, h, k, all-append p xs a)

module _ (u : Unicode) (has_port : Text → Bool) (join_host_port : Text → Text → Text) where
  collect_dns_observations-Bounded :
      (needed : ℕ) (query : Text → List Text × MaybeError) (resolvers : List Text)
      (seen : KeySet Text) (observations selected : List DnsObservation)
      → Bounded observations selected needed
      → length selected < needed
      → let found =
          collect_dns_observations u has_port join_host_port needed query resolvers seen
            observations selected in
        Bounded found.0 found.1 needed
  unfolding collect_dns_observations
  collect_dns_observations-Bounded needed query [] seen observations selected v h = v
  collect_dns_observations-Bounded needed query (r ∷ resolvers) seen observations selected v h =
      let endpoint = to_lower u (default_port u has_port join_host_port r (codes "53")) in
      let o : DnsObservation = record { resolver = r; records = (query r).0; err = (query r).1 } in
      let more = v.few in
      elim (Bool-cases (member endpoint seen)) [
        | inl e ↦
            rw (e, collect_dns_observations)
              (collect_dns_observations-Bounded needed query resolvers seen observations selected v
                h)
        | inr e ↦ elim (Bool-cases (length observations == max_network_attempts)) [
          | inl full ↦ rw (e, full, collect_dns_observations) v
          | inr room ↦
              let few : length (observations ++ o ∷ []) ≤ 3 =
                ground (arith, v.few, room, length-append observations (o ∷ [])) in
              let count = length-append selected (o ∷ []) in
              elim (Bool-cases (is_usable o.err)) [
                | inr bad ↦
                    rw (e, room, bad, collect_dns_observations)
                      (collect_dns_observations-Bounded needed query resolvers (add endpoint seen)
                        (observations ++ o ∷ []) selected
                        (record { few = few; enough = v.enough; usable = v.usable }) h)
                | inl good ↦
                    let next : Bounded (observations ++ o ∷ []) (selected ++ o ∷ []) needed =
                      record {
                        few = few;
                        enough = omega (arith, h, count);
                        usable =
                            all-append (λ (p : DnsObservation). is_usable p.err) selected o v.usable
                              good;
                      } in
                    elim (Bool-cases (length (selected ++ o ∷ []) == needed)) [
                      | inl full ↦ rw (e, room, good, full, collect_dns_observations) next
                      | inr less ↦
                          rw (e, room, good, less, collect_dns_observations)
                            (collect_dns_observations-Bounded needed query resolvers
                              (add endpoint seen) (observations ++ o ∷ []) (selected ++ o ∷ []) next
                              (ground (arith, h, less, count)))
                    ]
              ]
        ]
      ]

-- However many resolvers are configured, and however they answer: at most three are asked, at most
-- as many observations are selected as are needed (one at least), and each of these is usable: it
-- has no error, or says that the name does not exist.
collect_dns_observations_bounded :
    (u : Unicode) (has_port : Text → Bool) (join_host_port : Text → Text → Text) (needed : ℕ)
    (query : Text → List Text × MaybeError) (resolvers : List Text)
    → 1 ≤ needed
    → let found =
        collect_dns_observations u has_port join_host_port needed query resolvers [] [] [] in
      (length found.0 ≤ 3)
      × (length found.1 ≤ needed)
      × (all (λ (o : DnsObservation). is_usable o.err) found.1 ≡ true)
unfolding all
collect_dns_observations_bounded u has_port join_host_port needed query resolvers h =
    let v =
      collect_dns_observations-Bounded u has_port join_host_port needed query resolvers [] [] []
        (record { few = omega arith; enough = omega arith; usable = refl }) (omega (arith, h)) in
    (v.few, v.enough, v.usable)
