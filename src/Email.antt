-- ===== src/Email.antt =====
-- E-mail security: src/internal/monitor/dns.go, from hasUsableDKIMKey to fetchDMARCPolicy and from
-- EvaluateEmailSecurity to isProviderMXSafeDynamic.
pub mod Tags
pub mod Walk
pub mod Verdict
