-- ===== src/Dns.antt =====
-- The evaluation of DNS evidence: src/internal/monitor/dns.go.
pub mod Records
pub mod Dnssec
pub mod Health
pub mod Resolvers
