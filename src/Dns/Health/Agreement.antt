-- ===== src/Dns/Health/Agreement.antt =====
-- When the nameservers of a zone are healthy.
use domain_monitor.Base.{
  ◌≡◌, inl, inr, Bool, true, false, not, ◌&&◌, ◌||◌, List, [], ◌∷◌, Option, none, some, is_some,
  all, arith, ◌==◌, Bool-cases,
}
use domain_monitor.Types.Status.{ok, same_status}
use domain_monitor.Types.Condition.{ConditionTracker, new_tracker, promote}
use domain_monitor.Types.Config.{DomainConfig}
use domain_monitor.Types.Results.{NsSnapshot}
use domain_monitor.Lookup.Delegation.Agreement.{is_ok}
use domain_monitor.Dns.Health.{
  same_texts, judge_server, judge_against, judge_servers, evaluate_ns_health,
}

-- A server that answers, for the zone, wholly, and with its keys where DNSSEC is required.
unfoldable pub is_sound : Bool → NsSnapshot → Bool
is_sound dnssec s =
    not s.unreachable
    && s.authoritative
    && s.has_soa
    && not (is_some s.partial_error)
    && not (dnssec && (is_some s.dnskey_err || not s.has_dnskey))

-- It serves the same version of the zone as another, and the same keys where DNSSEC is required.
unfoldable pub agrees_with : Bool → NsSnapshot → NsSnapshot → Bool
agrees_with dnssec b s =
    s.soa_serial == b.soa_serial && not (dnssec && not (same_texts b.dnskeys s.dnskeys))

judge_server-is_ok :
    (dnssec : Bool) (s : NsSnapshot) (ct : ConditionTracker)
    → is_ok (judge_server dnssec s ct) ≡ (is_ok ct && is_sound dnssec s)
unfolding judge_server is_sound promote
judge_server-is_ok dnssec s ct = ground arith

judge_against-is_ok :
    (dnssec : Bool) (b s : NsSnapshot) (ct : ConditionTracker)
    → is_ok (judge_against dnssec b s ct) ≡ (is_ok ct && agrees_with dnssec b s)
unfolding judge_against agrees_with promote
judge_against-is_ok dnssec b s ct = ground arith

is_sound-answers :
    (dnssec : Bool) (s : NsSnapshot)
    → (not s.authoritative || not s.has_soa) ≡ true
    → is_sound dnssec s ≡ false
unfolding is_sound
is_sound-answers dnssec s h = ground arith

judge_servers-is_ok :
    (dnssec : Bool) (b : NsSnapshot) (snapshots : List NsSnapshot) (ct : ConditionTracker)
    → is_ok (judge_servers dnssec (some b) snapshots ct)
      ≡ (is_ok ct && all (λ s. is_sound dnssec s && agrees_with dnssec b s) snapshots)
unfolding judge_servers all
judge_servers-is_ok dnssec b [] ct = ground arith
judge_servers-is_ok dnssec b (s ∷ snapshots) ct =
    let judged = judge_server dnssec s ct in
    elim (Bool-cases (not s.authoritative || not s.has_soa)) [
      | inl e ↦
          rw (e, judge_servers)
            (ground (
              arith,
              judge_servers-is_ok dnssec b snapshots judged,
              judge_server-is_ok dnssec s ct,
              is_sound-answers dnssec s e,
            ))
      | inr e ↦
          rw (e, judge_servers)
            (ground (
              arith,
              judge_servers-is_ok dnssec b snapshots (judge_against dnssec b s judged),
              judge_against-is_ok dnssec b s judged,
              judge_server-is_ok dnssec s ct,
            ))
    ]

-- Once something is wrong, no server puts it right.
judge_servers_keeps :
    (dnssec : Bool) (baseline : Option NsSnapshot) (snapshots : List NsSnapshot)
    (ct : ConditionTracker)
    → is_ok ct ≡ false
    → is_ok (judge_servers dnssec baseline snapshots ct) ≡ false
unfolding judge_servers
judge_servers_keeps dnssec (some b) snapshots ct h =
    ground (arith, h, judge_servers-is_ok dnssec b snapshots ct)
judge_servers_keeps dnssec none [] ct h = h
judge_servers_keeps dnssec none (s ∷ snapshots) ct h =
    let judged = judge_server dnssec s ct in
    let still : is_ok judged ≡ false = ground (arith, h, judge_server-is_ok dnssec s ct) in
    elim (Bool-cases (not s.authoritative || not s.has_soa)) [
      | inl e ↦ rw (e, judge_servers) (judge_servers_keeps dnssec none snapshots judged still)
      | inr e ↦ rw (e, judge_servers) (judge_servers_keeps dnssec (some s) snapshots judged still)
    ]

-- Where at least one server was asked: the check is ok exactly when every server is sound (it
-- answers with authority, has the SOA record, shows no partial error and, where DNSSEC is required,
-- its keys) and every other one serves the same serial as the first, and, where DNSSEC is
-- required, the same keys.
pub evaluate_ns_health-ok_iff :
    (target : DomainConfig) (first : NsSnapshot) (snapshots : List NsSnapshot)
    → same_status (evaluate_ns_health target (first ∷ snapshots)).0 ok ≡ (
        is_sound target.dnssec first
        && all (λ s. is_sound target.dnssec s && agrees_with target.dnssec first s) snapshots)
unfolding evaluate_ns_health judge_servers
evaluate_ns_health-ok_iff target first snapshots =
    let judged = judge_server target.dnssec first new_tracker in
    elim (Bool-cases (not first.authoritative || not first.has_soa)) [
      | inl e ↦
          let bad = is_sound-answers target.dnssec first e in
          rw (e, judge_servers)
            (ground (
              arith,
              bad,
              judge_servers_keeps target.dnssec none snapshots judged
                  (ground (arith, bad, judge_server-is_ok target.dnssec first new_tracker)),
            ))
      | inr e ↦
          rw (e, judge_servers)
            (ground (
              arith,
              judge_servers-is_ok target.dnssec first snapshots judged,
              judge_server-is_ok target.dnssec first new_tracker,
            ))
    ]
