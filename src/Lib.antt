-- ===== src/Lib.antt =====
-- domain-monitor watches the registration, delegation, DNS, e-mail and certificate policy of a
-- portfolio of domains. It works in cycles: it gathers evidence over the network, evaluates the
-- evidence to verdicts, publishes them, and delivers alerts. This library models the parts of
-- src/internal/monitor that decide, each with the theorems that make it correct.
--
-- The files and the code they stand for:
--
-- - Base, Text, Errors: no code of their own. Maps are association lists, sets are maps to the
--   unit, the mutable slices and maps of the program are passed as values. A string is the list of
--   its code points; byte lengths are those of UTF-8. An error is its message and the sentinel
--   values that `errors.Is` finds in its chain. The tables of the package unicode are a parameter.
-- - Types: types.go and constants.go. Code, Epp and Status are the enumerations with their
--   numbers and names, Names reads and writes the names, Condition has StateCondition,
--   findingsFromConditions and ConditionTracker, Config and Results are the records.
-- - Utils: the text normalisation of utils.go, and Retry, which is retryWithBackoff over a record of
--   what each attempt meets.
-- - Lookup: lookup.go. Epp reads domain statuses, Date is parseFlexibleDate, Delegation is
--   EvaluateNSDelegation, and Registration is EvaluateRDAP. Statuses is NormalizeDomainStatuses,
--   Tiers is synthesizeTierData, and Fallback is FetchRDAPSnapshot over what its two fetches return.
-- - Dns: dns.go. Records is EvaluateDNS with its match types, Dnssec is EvaluateDNSSEC with
--   finalizeDNSSECResult, Health is EvaluateNSHealth and evaluateNSHealthResult, and Resolvers is
--   queryDNS, which compares the answers of two resolvers.
-- - Email: dns.go. Tags is parseSemicolonTags with the tests of DMARC, SPF and DKIM records, Walk is
--   fetchDMARCPolicy, and Verdict is EvaluateEmailSecurity.
-- - Config: config.go. Endpoints, Domain and Task validate and normalise the parts, and Checks is
--   compileRawConfig. Result has the values or the reason for a refusal; the texts of the errors are
--   left out.
-- - Notify: notify.go. Order is sortAlerts, Queue is the bounded queue behind Dispatch, and Report
--   is the text that is sent for a cycle.
-- - Cycle: runtime.go. Slots is fastCheckSlot, Workers is runBoundedChecks as a step relation in
--   which any worker may move next, Registration is evaluateRDAPCheck, Expired has the domains that
--   may expire, from newCycleState to nextExpiredDomains, and Conditions has the start times of
--   conditions and the alerts made of them. The alerts of Conditions go to Queue
--   (dispatchCycleAlerts); the verdicts of Lookup go to Expired and Conditions through CheckState.
--   Store has the loop of evaluateFastEvidence over the DNS tasks, with storeDNSResult, Transitions
--   is logStateTransitions and Budget is saturatingWorkDuration.
-- - Pricing: applyPortfolioPricing of pricing.go.
-- - Bootstrap: bootstrap.go. Suffix is the search for the longest suffix, Registry reads the registry
--   file, and Cache is ServersFor with ensure. Tables are two tables of constants.go.
-- - Examples: concrete inputs.
--
-- Parameters stand for what is not in the repository: time.Parse, the package net, IDNA, the list
-- of public suffixes, the hash of a report, base64, X.509 keys, the expression for valid names, the
-- parser of CAA records, URLs, random numbers, and the queries over the network. The clock is an
-- argument; in Conditions all the readings of one cycle are one. Loops are structural recursion
-- over their slices; that of fetchDMARCPolicy is over the queries that are left, eight at first. Two
-- functions take fuel: `decimal`, the verb %d, has the number itself as fuel, each of its steps
-- divides the number by ten, and Notify/Report/Decimal reads the text back; `retry_loop` needs three
-- rounds, as Utils/Retry/Bounded shows.
--
-- Not modelled: the HTTP server, the log lines, files, JSON decoding, the migration of old
-- configurations, the fetches themselves (RDAP, WHOIS, DNS, pricing, bootstrap registry), the parsing
-- of their texts and the cache of prices, and the scheduling of the cycles. These are input
-- and output, or calls of libraries. An index of a check past the end of the configuration, which
-- would panic, is skipped; the indices that the program uses come from the configuration itself.
pub mod Base
pub mod Text
pub mod Errors
pub mod Types
pub mod Utils
pub mod Lookup
pub mod Dns
pub mod Email
pub mod Config
pub mod Notify
pub mod Pricing
pub mod Bootstrap
pub mod Cycle
mod Examples
