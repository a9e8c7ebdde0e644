-- ===== src/Email/Walk.antt =====
-- The DNS tree walk for a DMARC policy: parentDomain and fetchDMARCPolicy in
-- src/internal/monitor/dns.go. The query of TXT records is a parameter, and a walk remembers the
-- hosts that it asked, the last one first.
pub mod Evidence
use domain_monitor.Base.{
  ℕ, zero, suc, ◌+◌, ◌-◌, Bool, true, false, not, ◌&&◌, List, [], ◌∷◌, ◌++◌, Option, none, some,
  ltb, ◌==◌, if◌then◌else◌, is_empty, is_some, get_or_else,
}
use domain_monitor.Text.{Text, codes, text_beq, Unicode, cut}
use domain_monitor.Errors.{nxdomain, MaybeError, error_is}
use domain_monitor.Utils.{normalize_domain}
use domain_monitor.Email.Tags.{select_dmarc_policy_record, dmarc_psd_value}

pub record TxtAnswer : Type 0 where
  pub texts : List Text
  pub err : MaybeError

pub record PolicyWalk : Type 0 where
  pub policies : List Text
  pub err : MaybeError
  pub asked : List Text

-- The record found so far and its domain; an empty record is none.
pub record Candidate : Type 0 where
  pub policy : Text
  pub domain : Text

-- What one answer decides: the walk ends with records or an error, or goes on.
pub data Judged : Type 0 where
  settle : List Text → MaybeError → Judged
  carry : Candidate → Judged

unfoldable pub parent_domain : Text → Text
unfolding cut
parent_domain domain = get_or_else (cut b'.' domain).1 []

unfoldable pub parents : ℕ → Text → Text
unfolding parent_domain
parents zero domain = domain
parents (suc n) domain = parents n (parent_domain domain)

unfoldable pub count_dots : Text → ℕ
count_dots [] = 0
count_dots (c ∷ s) = (if c == b'.' then 1 else 0) + count_dots s

abbrev pub max_dmarc_discovery_labels : ℕ
max_dmarc_discovery_labels = 8

abbrev pub dmarc_discovery_target_labels : ℕ
dmarc_discovery_target_labels = 7

unfoldable pub dmarc_host : Text → Text
dmarc_host domain = codes "_dmarc." ++ domain

-- Where the walk goes next, if the name has a parent.
unfoldable pub next_domain : Bool → Text → Option Text
unfolding parents count_dots cut
next_domain first current =
    let labels = 1 + count_dots current in
    elim (cut b'.' current).1 [
      | none ↦ none
      | some parent ↦ some (
          if first && ltb max_dmarc_discovery_labels labels
          then parents (labels - dmarc_discovery_target_labels) current
          else parent)
    ]

-- An error that is not the absence of the name.
unfoldable pub transient : TxtAnswer → Bool
unfolding error_is
transient a = is_some a.err && not (error_is a.err nxdomain)

-- What the walk returns when it has come to its end.
abbrev pub at_end : Candidate → List Text → PolicyWalk
at_end cand asked = record {
  policies = if is_empty cand.policy then [] else cand.policy ∷ [];
  err = none;
  asked = asked;
}

module _ (u : Unicode) where
  unfoldable pub judge_record : Bool → Text → Text → Candidate → Judged
  judge_record first current found cand =
      if first
      then settle (found ∷ []) none
      else if text_beq (dmarc_psd_value u found) (codes "n")
      then settle (found ∷ []) none
      else if text_beq (dmarc_psd_value u found) (codes "y")
      then if not (is_empty cand.policy) && text_beq (parent_domain cand.domain) current
        then settle (cand.policy ∷ []) none
        else settle (found ∷ []) none
      else carry (record { policy = found; domain = current })

  unfoldable pub judge_answer : Bool → Text → TxtAnswer → Candidate → Judged
  judge_answer first current answer cand =
      let (found, invalid) = select_dmarc_policy_record u answer.texts in
      if transient answer
      then settle [] answer.err
      else if is_some answer.err
      then carry cand
      else if invalid
      then settle [] (
          some (record {
            message = codes "invalid DMARC policy at " ++ dmarc_host current;
            chain = [];
          }))
      else if is_empty found
      then carry cand
      else judge_record first current found cand

  module _ (query : Text → TxtAnswer) where
    -- The loop with the queries that are left, whether this is the first one, and the hosts asked.
    unfoldable pub walk : ℕ → Bool → Text → Candidate → List Text → PolicyWalk
    walk zero first current cand asked = at_end cand asked
    walk (suc left) first current cand asked =
        let asked' = dmarc_host current ∷ asked in
        elim (judge_answer first current (query (dmarc_host current)) cand) [
          | settle policies err ↦ record { policies = policies; err = err; asked = asked' }
          | carry cand' ↦ elim (next_domain first current) [
            | none ↦ at_end cand' asked'
            | some parent ↦ walk left false parent cand' asked'
          ]
        ]

    unfoldable pub fetch_dmarc_policy : Text → PolicyWalk
    fetch_dmarc_policy domain =
        walk 8 true (normalize_domain u domain) (record { policy = []; domain = [] }) []
