-- ===== src/Dns/Resolvers.antt =====
-- The agreement of resolvers: queryDNS, collectDNSObservations, observationErrors and
-- incompleteResolverCause in src/internal/monitor/dns.go, and DefaultPort in
-- src/internal/monitor/utils.go. The queries are an argument, as are the two functions of the
-- package net.
pub mod Unanimity
pub mod Absence
use domain_monitor.Base.{
  ℕ, Bool, true, false, not, ◌&&◌, ◌||◌, List, [], ◌∷◌, ◌++◌, map, Option, none, some, ltb, ◌==◌,
  if◌then◌else◌, is_empty, is_some, length, KeySet, member, add, sort,
}
use domain_monitor.Text.{
  Text, codes, text_beq, text_eq, Unicode, to_lower, trim_space, trim, one_of,
}
use domain_monitor.Errors.{Error, MaybeError, error_is, nxdomain, errors_join}
use domain_monitor.Types.Results.{DnsObservation}
use domain_monitor.Notify.Order.{text_not_after}
use domain_monitor.Dns.Health.{same_texts}

abbrev pub max_network_attempts : ℕ
max_network_attempts = 3

abbrev pub min_recursive_resolver_observations : ℕ
min_recursive_resolver_observations = 2

-- An error made from a text alone.
abbrev pub new_error : Text → Error
new_error text = record { message = text; chain = [] }

-- slices.Compact
unfoldable pub compact : List Text → List Text
compact [] = []
compact (x ∷ []) = x ∷ []
compact (x ∷ y ∷ ys) = let rest = compact (y ∷ ys) in if text_beq x y then rest else x ∷ rest

-- slices.Sort and slices.Compact
unfoldable pub as_record_set : List Text → List Text
unfolding compact
as_record_set records = compact (sort text_not_after records)

unfoldable pub is_usable : MaybeError → Bool
unfolding error_is
is_usable err = not (is_some err) || error_is err nxdomain

unfoldable pub actionable : List MaybeError → List MaybeError
unfolding error_is
actionable [] = []
actionable (e ∷ errs) =
    let rest = actionable errs in if is_some e && not (error_is e nxdomain) then e ∷ rest else rest

unfoldable pub incomplete_resolver_cause : List MaybeError → Error
unfolding errors_join actionable
incomplete_resolver_cause errs = elim (errors_join errs) [
  | none ↦ new_error (codes "fewer than two distinct resolver observations")
  | some joined ↦ elim (errors_join (actionable errs)) [
    | none ↦ new_error joined.message
    | some cause ↦ record {
      message = joined.message ++ (codes ": " ++ cause.message);
      chain = cause.chain;
    }
  ]
]

-- `fmt.Errorf("incomplete resolver evidence: %w", ...)`
unfoldable pub incomplete_evidence : List MaybeError → MaybeError
unfolding incomplete_resolver_cause
incomplete_evidence errs =
    let cause = incomplete_resolver_cause errs in
    some (record {
      message = codes "incomplete resolver evidence: " ++ cause.message;
      chain = cause.chain;
    })

unfoldable pub observation_errors : List DnsObservation → List MaybeError
observation_errors observations = map (λ (o : DnsObservation). o.err) observations

-- What two usable observations say together.
unfoldable pub reconcile : Text → DnsObservation → DnsObservation → List Text × MaybeError
unfolding error_is errors_join incomplete_evidence as_record_set same_texts
reconcile hostname a b =
    let first = as_record_set a.records in
    let second = as_record_set b.records in
    if is_some a.err || is_some b.err
    then if error_is a.err nxdomain && error_is b.err nxdomain
      then ([], errors_join (a.err ∷ b.err ∷ []))
      else ([], incomplete_evidence (a.err ∷ b.err ∷ []))
    else if not (same_texts first second)
    then ([], some (new_error (codes "resolver disagreement for " ++ hostname)))
    else (first, none)

unfoldable pub decide_selected :
    Text → List DnsObservation → List DnsObservation → List Text × MaybeError
unfolding incomplete_evidence observation_errors reconcile
decide_selected hostname observations (a ∷ b ∷ selected) = reconcile hostname a b
decide_selected hostname observations (a ∷ []) =
    ([], incomplete_evidence (observation_errors observations))
decide_selected hostname observations [] =
    ([], incomplete_evidence (observation_errors observations))

module _ (u : Unicode) (has_port : Text → Bool) (join_host_port : Text → Text → Text) where
  unfoldable pub default_port : Text → Text → Text
  unfolding trim_space trim
  default_port addr port =
      let clean = trim_space addr in
      if not (has_port clean) then join_host_port (trim (one_of (codes "[]")) clean) port else clean

  unfoldable pub collect_dns_observations :
      ℕ
      → (Text → List Text × MaybeError)
      → List Text
      → KeySet Text
      → List DnsObservation
      → List DnsObservation
      → List DnsObservation × List DnsObservation
  unfolding default_port to_lower is_usable
  collect_dns_observations needed query [] seen observations selected = (observations, selected)
  collect_dns_observations needed query (r ∷ resolvers) seen observations selected =
      let endpoint = to_lower u (default_port r (codes "53")) in
      let (records, err) = query r in
      let observation : DnsObservation = record { resolver = r; records = records; err = err } in
      let chosen = selected ++ observation ∷ [] in
      elim (member endpoint seen) [
        | true ↦ collect_dns_observations needed query resolvers seen observations selected
        | false ↦ elim (length observations == max_network_attempts) [
          | true ↦ (observations, selected)
          | false ↦ elim (is_usable err) [
            | false ↦
                collect_dns_observations needed query resolvers (add endpoint seen)
                  (observations ++ observation ∷ []) selected
            | true ↦ elim (length chosen == needed) [
              | true ↦ (observations ++ observation ∷ [], chosen)
              | false ↦
                  collect_dns_observations needed query resolvers (add endpoint seen)
                    (observations ++ observation ∷ []) chosen
            ]
          ]
        ]
      ]

  -- `query` is queryDNSOne, which is over the network.
  unfoldable pub query_dns :
      (List Text → List Text × MaybeError) → Text → List Text → List Text × MaybeError
  unfolding collect_dns_observations decide_selected
  query_dns query hostname resolvers =
      let (observations, selected) =
        collect_dns_observations min_recursive_resolver_observations (λ r. query (r ∷ [])) resolvers
          [] [] [] in
      if ltb (length resolvers) min_recursive_resolver_observations
      then query resolvers
      else decide_selected hostname observations selected
