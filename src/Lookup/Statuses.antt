-- ===== src/Lookup/Statuses.antt =====
-- Domain statuses in canonical form: normalizeEPPStatus and NormalizeDomainStatuses in
-- src/internal/monitor/lookup.go, with eppStatusMap of constants.go.
pub mod Kept
use domain_monitor.Base.{
  ℕ, Bool, true, false, not, ◌&&◌, ◌||◌, List, [], ◌∷◌, ◌++◌, Option, none, some, ◌==◌,
  if◌then◌else◌, is_empty, is_some, get_or_else, first_of, any, keep, reverse, Map, lookup, KeySet,
  member, add,
}
use domain_monitor.Text.{
  Text, codes, text_eq, text_beq, Unicode, to_lower, trim_space, trim_left, is_space, one_of, cut,
  join, has_prefix, has_substring,
}
use domain_monitor.Utils.{normalize_status_token}

unfoldable pub epp_status_map : Map Text Text
epp_status_map =
    (codes "clienttransferprohibited", codes "clientTransferProhibited")
    ∷ (codes "servertransferprohibited", codes "serverTransferProhibited")
    ∷ (codes "transferprohibited", codes "transferProhibited")
    ∷ (codes "clientupdateprohibited", codes "clientUpdateProhibited")
    ∷ (codes "serverupdateprohibited", codes "serverUpdateProhibited")
    ∷ (codes "updateprohibited", codes "updateProhibited")
    ∷ (codes "clientdeleteprohibited", codes "clientDeleteProhibited")
    ∷ (codes "serverdeleteprohibited", codes "serverDeleteProhibited")
    ∷ (codes "deleteprohibited", codes "deleteProhibited")
    ∷ (codes "clientrenewprohibited", codes "clientRenewProhibited")
    ∷ (codes "serverrenewprohibited", codes "serverRenewProhibited")
    ∷ (codes "renewprohibited", codes "renewProhibited")
    ∷ (codes "clienthold", codes "clientHold")
    ∷ (codes "serverhold", codes "serverHold")
    ∷ (codes "hold", codes "hold")
    ∷ (codes "pendingcreate", codes "pendingCreate")
    ∷ (codes "pendingdelete", codes "pendingDelete")
    ∷ (codes "pendingrenew", codes "pendingRenew")
    ∷ (codes "pendingrestore", codes "pendingRestore")
    ∷ (codes "pendingtransfer", codes "pendingTransfer")
    ∷ (codes "pendingupdate", codes "pendingUpdate")
    ∷ (codes "redemptionperiod", codes "redemptionPeriod")
    ∷ (codes "addperiod", codes "addPeriod")
    ∷ (codes "autorenewperiod", codes "autoRenewPeriod")
    ∷ (codes "renewperiod", codes "renewPeriod")
    ∷ (codes "transferperiod", codes "transferPeriod")
    ∷ (codes "inactive", codes "inactive")
    ∷ (codes "active", codes "active")
    ∷ (codes "ok", codes "ok")
    ∷ (codes "validated", codes "validated")
    ∷ (codes "associated", codes "associated")
    ∷ (codes "notassociated", codes "notAssociated")
    ∷ (codes "connected", codes "active")
    ∷ []

-- The word that is read, before those that follow.
abbrev pub push_word : Text → List Text → List Text
push_word [] words = words
push_word (c ∷ w) words = (c ∷ w) ∷ words

unfoldable pub split_words : Text → Text × List Text
unfolding is_space
split_words [] = ([], [])
split_words (c ∷ s) =
    let (w, words) = split_words s in if is_space c then ([], push_word w words) else (c ∷ w, words)

-- strings.Fields
unfoldable pub fields : Text → List Text
unfolding split_words
fields s = push_word (split_words s).0 (split_words s).1

-- strings.CutLast at one character: what stands behind the last one, if there is one.
unfoldable pub behind_last : ℕ → Text → Option Text
behind_last sep [] = none
behind_last sep (c ∷ s) = first_of (behind_last sep s) (if c == sep then some s else none)

-- strings.TrimRight
unfoldable pub trim_right : (ℕ → Bool) → Text → Text
unfolding trim_left
trim_right p s = reverse (trim_left p (reverse s))

-- The text without a note in parentheses.
unfoldable pub without_note : Text → Text
unfolding cut trim_space
without_note s = if is_some (cut b'(' s).1 then trim_space (cut b'(' s).0 else s

-- The statuses that say the same for a client or a server.
unfoldable pub specific_forms : Text → List Text
unfolding text_beq
specific_forms key =
    if text_beq key (codes "transferprohibited")
    then codes "clienttransferprohibited" ∷ codes "servertransferprohibited" ∷ []
    else if text_beq key (codes "deleteprohibited")
    then codes "clientdeleteprohibited" ∷ codes "serverdeleteprohibited" ∷ []
    else if text_beq key (codes "updateprohibited")
    then codes "clientupdateprohibited" ∷ codes "serverupdateprohibited" ∷ []
    else if text_beq key (codes "renewprohibited")
    then codes "clientrenewprohibited" ∷ codes "serverrenewprohibited" ∷ []
    else if text_beq key (codes "hold")
    then codes "clienthold" ∷ codes "serverhold" ∷ []
    else []

-- Whether a more specific status is there too.
unfoldable pub is_redundant : KeySet Text → Text → Bool
is_redundant seen key = any (λ form. member form seen) (specific_forms key)

module _ (u : Unicode) where
  unfoldable pub is_url : Text → Bool
  unfolding has_prefix to_lower
  is_url f =
      has_prefix (to_lower u f) (codes "http://") || has_prefix (to_lower u f) (codes "https://")

  -- The canonical name of a text that names a status.
  unfoldable pub canonical_status : Text → Option Text
  unfolding lookup normalize_status_token epp_status_map text_beq
  canonical_status s = lookup (normalize_status_token u s) epp_status_map

  -- The status that the anchor of an address names.
  unfoldable pub anchor_status : Text → Text
  unfolding behind_last trim_right trim_space canonical_status has_substring
  anchor_status s = elim (behind_last b'#' s) [
    | none ↦ s
    | some raw ↦
        let token = trim_right (one_of (codes ")/;, \t\r\n")) (trim_space raw) in
        if not (is_empty token)
          && not (has_substring token (codes "/"))
          && not (has_substring token (codes " "))
        then get_or_else (canonical_status token) token
        else s
  ]

  unfoldable pub normalize_epp_status : Text → Text
  unfolding without_note fields is_url join canonical_status anchor_status trim_space
  normalize_epp_status raw =
      let s = without_note (trim_space raw) in
      let words = keep (λ f. not (is_url f)) (fields s) in
      let t = trim_space (if is_empty words then s else join (codes " ") words) in
      if is_empty (trim_space raw) || is_empty t then [] else elim (canonical_status t) [
        | some canon ↦ canon
        | none ↦ if not (is_empty words) then t else anchor_status t
      ]

  -- The first loop, with the set of the keys seen and the statuses so far.
  unfoldable pub collect_statuses : List Text → KeySet Text → List Text → KeySet Text × List Text
  collect_statuses [] seen normalized = (seen, normalized)
  collect_statuses (s ∷ rest) seen normalized =
      let norm = normalize_epp_status s in
      let key = to_lower u norm in
      let skip = is_empty norm || member key seen in
      collect_statuses rest (if skip then seen else add key seen)
        (if skip then normalized else normalized ++ norm ∷ [])

  unfoldable pub normalize_domain_statuses : List Text → List Text
  normalize_domain_statuses statuses =
      let (seen, normalized) = collect_statuses statuses [] [] in
      keep (λ norm. not (is_redundant seen (to_lower u norm))) normalized
