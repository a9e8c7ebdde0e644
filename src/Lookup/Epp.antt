-- ===== src/Lookup/Epp.antt =====
-- Domain statuses: classifyEPPStatus, isTransferLocked and isDomainSuspended in
-- src/internal/monitor/lookup.go.
use domain_monitor.Base.{
  suc, Bool, false, ◌||◌, List, [], ◌∷◌, Option, none, some, ◌==◌, if◌then◌else◌,
}
use domain_monitor.Text.{Text, codes, text_beq, Unicode}
use domain_monitor.Types.Epp
use domain_monitor.Types.Epp.{EppCode, epp_code_keys}
use domain_monitor.Types.Names.{index_of}
use domain_monitor.Utils.{normalize_status_token}

-- The keys from `EPPOK` on.
unfoldable pub known_keys : List Text → List Text
known_keys [] = []
known_keys (k ∷ ks) = ks

module _ (u : Unicode) where
  unfoldable pub classify_epp_status : Text → EppCode
  unfolding index_of known_keys epp_code_keys normalize_status_token
  classify_epp_status status =
      elim (index_of (known_keys epp_code_keys) (normalize_status_token u status)) [
        | none ↦ Epp.unknown
        | some n ↦ suc n
      ]

  unfoldable pub status_locks : Text → Bool
  unfolding classify_epp_status
  status_locks s =
      let code = classify_epp_status s in
      let key = normalize_status_token u s in
      code == Epp.client_transfer_prohibited
      || code == Epp.server_transfer_prohibited
      || code == Epp.transfer_prohibited
      || text_beq key (codes "prohibittransfer")
      || text_beq key (codes "transferlock")

  unfoldable pub is_transfer_locked : List Text → Bool
  unfolding status_locks
  is_transfer_locked [] = false
  is_transfer_locked (s ∷ statuses) = status_locks s || is_transfer_locked statuses

  unfoldable pub status_suspends : Text → Bool
  unfolding classify_epp_status
  status_suspends s =
      let code = classify_epp_status s in
      code == Epp.server_hold
      || code == Epp.client_hold
      || code == Epp.pending_delete
      || code == Epp.redemption_period
      || code == Epp.inactive
      || code == Epp.hold

  -- The first status that suspends the domain, if there is one.
  unfoldable pub is_domain_suspended : List Text → Option Text
  unfolding status_suspends
  is_domain_suspended [] = none
  is_domain_suspended (s ∷ statuses) =
      if status_suspends s then some s else is_domain_suspended statuses
