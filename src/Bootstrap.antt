-- ===== src/Bootstrap.antt =====
-- The bootstrap cache, which says where the RDAP server of a suffix is, and the table of WHOIS
-- servers: src/internal/monitor/bootstrap.go from KnownWHOISServer on.
pub mod Tables
pub mod Suffix
pub mod Registry
pub mod Cache
