-- ===== src/Types/Code.antt =====
-- The result codes of constants.go in src/internal/monitor: `ResultCode` is a compact number, and
-- `resultCodeNames` gives each its published name, by its number.
use domain_monitor.Base.{ℕ, List, [], ◌∷◌}
use domain_monitor.Text.{Text, codes}

abbrev pub ResultCode : Type 0
ResultCode = ℕ

abbrev pub no_code : ResultCode
no_code = 0

abbrev pub rdap_success : ResultCode
rdap_success = 1

abbrev pub whois_success : ResultCode
whois_success = 2

abbrev pub domain_not_found : ResultCode
domain_not_found = 3

abbrev pub rdap_http_error : ResultCode
rdap_http_error = 4

abbrev pub whois_parsing_failed : ResultCode
whois_parsing_failed = 5

abbrev pub epp_server_hold : ResultCode
epp_server_hold = 6

abbrev pub epp_client_hold : ResultCode
epp_client_hold = 7

abbrev pub epp_pending_delete : ResultCode
epp_pending_delete = 8

abbrev pub epp_redemption_period : ResultCode
epp_redemption_period = 9

abbrev pub epp_inactive : ResultCode
epp_inactive = 10

abbrev pub rdap_expired : ResultCode
rdap_expired = 11

abbrev pub rdap_expiring_soon : ResultCode
rdap_expiring_soon = 12

abbrev pub rdap_expiry_unavailable : ResultCode
rdap_expiry_unavailable = 13

abbrev pub rdap_registrar_mismatch : ResultCode
rdap_registrar_mismatch = 14

abbrev pub rdap_transfer_unlocked : ResultCode
rdap_transfer_unlocked = 15

abbrev pub rdap_suspended : ResultCode
rdap_suspended = 16

abbrev pub ns_sync_verified : ResultCode
ns_sync_verified = 17

abbrev pub ns_unreachable : ResultCode
ns_unreachable = 18

abbrev pub ns_not_authoritative : ResultCode
ns_not_authoritative = 19

abbrev pub ns_missing_soa : ResultCode
ns_missing_soa = 20

abbrev pub ns_soa_mismatch : ResultCode
ns_soa_mismatch = 21

abbrev pub ns_dnskey_mismatch : ResultCode
ns_dnskey_mismatch = 22

abbrev pub expected_ns_missing : ResultCode
expected_ns_missing = 23

abbrev pub unauthorized_ns : ResultCode
unauthorized_ns = 24

abbrev pub ns_hidden_exposed : ResultCode
ns_hidden_exposed = 25

abbrev pub dns_match_verified : ResultCode
dns_match_verified = 26

abbrev pub dns_mismatch : ResultCode
dns_mismatch = 27

abbrev pub dns_lookup_failed : ResultCode
dns_lookup_failed = 28

abbrev pub dns_server_error : ResultCode
dns_server_error = 29

abbrev pub dns_prefix_mismatch : ResultCode
dns_prefix_mismatch = 30

abbrev pub dns_substring_mismatch : ResultCode
dns_substring_mismatch = 31

abbrev pub email_verified : ResultCode
email_verified = 32

abbrev pub email_missing_mx : ResultCode
email_missing_mx = 33

abbrev pub email_unauthorized_mx : ResultCode
email_unauthorized_mx = 34

abbrev pub email_hijacked_mx : ResultCode
email_hijacked_mx = 35

abbrev pub email_missing_spf : ResultCode
email_missing_spf = 36

abbrev pub email_multiple_spf : ResultCode
email_multiple_spf = 37

abbrev pub email_missing_dmarc : ResultCode
email_missing_dmarc = 38

abbrev pub email_multiple_dmarc : ResultCode
email_multiple_dmarc = 39

abbrev pub email_missing_dkim : ResultCode
email_missing_dkim = 40

abbrev pub mx_query_failed : ResultCode
mx_query_failed = 41

abbrev pub no_mx_records : ResultCode
no_mx_records = 42

abbrev pub spf_lookup_failed : ResultCode
spf_lookup_failed = 43

abbrev pub dmarc_lookup_failed : ResultCode
dmarc_lookup_failed = 44

abbrev pub dkim_lookup_failed : ResultCode
dkim_lookup_failed = 45

abbrev pub dnssec_verified : ResultCode
dnssec_verified = 46

abbrev pub dnssec_network_error : ResultCode
dnssec_network_error = 47

abbrev pub dnssec_disabled : ResultCode
dnssec_disabled = 48

abbrev pub dnssec_no_ds : ResultCode
dnssec_no_ds = 49

abbrev pub dnssec_no_dnskey : ResultCode
dnssec_no_dnskey = 50

abbrev pub dnssec_ds_mismatch : ResultCode
dnssec_ds_mismatch = 51

abbrev pub dnssec_rrsig_failed : ResultCode
dnssec_rrsig_failed = 52

abbrev pub dnssec_chain_broken : ResultCode
dnssec_chain_broken = 53

abbrev pub caa_verified : ResultCode
caa_verified = 54

abbrev pub caa_query_failed : ResultCode
caa_query_failed = 55

abbrev pub caa_missing_deny_all : ResultCode
caa_missing_deny_all = 56

abbrev pub caa_unexpected_issuer : ResultCode
caa_unexpected_issuer = 57

abbrev pub caa_missing_issuer : ResultCode
caa_missing_issuer = 58

abbrev pub ct_logs_verified : ResultCode
ct_logs_verified = 59

abbrev pub ct_logs_rate_limited : ResultCode
ct_logs_rate_limited = 60

abbrev pub ct_logs_http_error : ResultCode
ct_logs_http_error = 61

abbrev pub ct_persistence_failed : ResultCode
ct_persistence_failed = 62

abbrev pub ct_coverage_incomplete : ResultCode
ct_coverage_incomplete = 63

abbrev pub check_timeout : ResultCode
check_timeout = 64

abbrev pub check_panic : ResultCode
check_panic = 65

abbrev pub email_invalid_null_mx : ResultCode
email_invalid_null_mx = 66

unfoldable pub result_code_names : List Text
result_code_names =
    codes ""
    ∷ codes "rdapSuccess"
    ∷ codes "whoisSuccess"
    ∷ codes "domainNotFound"
    ∷ codes "rdapHttpError"
    ∷ codes "whoisParsingFailed"
    ∷ codes "serverHold"
    ∷ codes "clientHold"
    ∷ codes "pendingDelete"
    ∷ codes "redemptionPeriod"
    ∷ codes "inactive"
    ∷ codes "rdapExpired"
    ∷ codes "rdapExpiringSoon"
    ∷ codes "rdapExpiryUnavailable"
    ∷ codes "rdapRegistrarMismatch"
    ∷ codes "rdapTransferUnlocked"
    ∷ codes "rdapSuspended"
    ∷ codes "nsSyncVerified"
    ∷ codes "nsUnreachable"
    ∷ codes "nsNotAuthoritative"
    ∷ codes "nsMissingSoa"
    ∷ codes "nsSoaMismatch"
    ∷ codes "nsDnskeyMismatch"
    ∷ codes "expectedNsMissing"
    ∷ codes "unauthorizedNs"
    ∷ codes "nsHiddenExposed"
    ∷ codes "dnsMatchVerified"
    ∷ codes "dnsMismatch"
    ∷ codes "dnsLookupFailed"
    ∷ codes "dnsServerError"
    ∷ codes "dnsPrefixMismatch"
    ∷ codes "dnsSubstringMismatch"
    ∷ codes "emailVerified"
    ∷ codes "emailMissingMx"
    ∷ codes "emailUnauthorizedMx"
    ∷ codes "emailHijackedMx"
    ∷ codes "emailMissingSpf"
    ∷ codes "emailMultipleSpf"
    ∷ codes "emailMissingDmarc"
    ∷ codes "emailMultipleDmarc"
    ∷ codes "emailMissingDkim"
    ∷ codes "mxQueryFailed"
    ∷ codes "noMxRecords"
    ∷ codes "spfLookupFailed"
    ∷ codes "dmarcLookupFailed"
    ∷ codes "dkimLookupFailed"
    ∷ codes "dnssecVerified"
    ∷ codes "dnssecNetworkError"
    ∷ codes "dnssecDisabled"
    ∷ codes "dnssecNoDs"
    ∷ codes "dnssecNoDnskey"
    ∷ codes "dnssecDsMismatch"
    ∷ codes "dnssecRrsigFailed"
    ∷ codes "dnssecChainBroken"
    ∷ codes "caaVerified"
    ∷ codes "caaQueryFailed"
    ∷ codes "caaMissingDenyAll"
    ∷ codes "caaUnexpectedIssuer"
    ∷ codes "caaMissingIssuer"
    ∷ codes "ctLogsVerified"
    ∷ codes "ctLogsRateLimited"
    ∷ codes "ctLogsHttpError"
    ∷ codes "ctPersistenceFailed"
    ∷ codes "ctCoverageIncomplete"
    ∷ codes "checkTimeout"
    ∷ codes "checkPanic"
    ∷ codes "emailInvalidNullMx"
    ∷ []
