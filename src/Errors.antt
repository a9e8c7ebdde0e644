-- ===== src/Errors.antt =====
-- Go's errors (src/internal/monitor/constants.go, the block of System Errors). An `error` that is
-- not nil is its message and the sentinel values that `errors.Is` finds in its chain.
use domain_monitor.Base.{ℕ, Bool, false, List, [], ◌∷◌, ◌++◌, Option, none, some, ◌==◌, any}
use domain_monitor.Text.{Text}

pub data Sentinel : Type 0 where
  dns_resolution nxdomain servfail rdap_not_found rdap_rate_limited : Sentinel
  whois_rate_limited domain_not_found no_resolvers empty_dns_response : Sentinel
  empty_http_response http_client_nil invalid_null_mx read_limit_exceeded : Sentinel
  restricted_ip bootstrap_client_nil no_rdap_server empty_date empty_bootstrap_registry : Sentinel
  context_canceled context_deadline_exceeded os_not_exist : Sentinel

abbrev pub sentinel_number : Sentinel → ℕ
sentinel_number dns_resolution = 0
sentinel_number nxdomain = 1
sentinel_number servfail = 2
sentinel_number rdap_not_found = 3
sentinel_number rdap_rate_limited = 4
sentinel_number whois_rate_limited = 5
sentinel_number domain_not_found = 6
sentinel_number no_resolvers = 7
sentinel_number empty_dns_response = 8
sentinel_number empty_http_response = 9
sentinel_number http_client_nil = 10
sentinel_number invalid_null_mx = 11
sentinel_number read_limit_exceeded = 12
sentinel_number restricted_ip = 13
sentinel_number bootstrap_client_nil = 14
sentinel_number no_rdap_server = 15
sentinel_number empty_date = 16
sentinel_number empty_bootstrap_registry = 17
sentinel_number context_canceled = 18
sentinel_number context_deadline_exceeded = 19
sentinel_number os_not_exist = 20

pub record Error : Type 0 where
  pub message : Text
  pub chain : List Sentinel

-- A nil error is `none`.
abbrev pub MaybeError : Type 0
MaybeError = Option Error

-- errors.Is, which is false of nil.
unfoldable pub error_is : MaybeError → Sentinel → Bool
unfolding any
error_is none s = false
error_is (some e) s = any (λ t. sentinel_number t == sentinel_number s) e.chain

-- The text of an error, which the program reads only where it is not nil.
unfoldable pub error_text : MaybeError → Text
error_text none = []
error_text (some e) = e.message

-- errors.Join: nil if all are nil; else the messages, a line each, and all the chains.
unfoldable pub errors_join : List MaybeError → MaybeError
errors_join [] = none
errors_join (none ∷ es) = errors_join es
errors_join (some e ∷ es) = elim (errors_join es) [
  | none ↦ some e
  | some f ↦ some (record { message = e.message ++ (10 ∷ f.message); chain = e.chain ++ f.chain })
]
