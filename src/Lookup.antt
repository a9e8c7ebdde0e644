-- ===== src/Lookup.antt =====
-- Registration evidence: src/internal/monitor/lookup.go.
pub mod Epp
pub mod Delegation
pub mod Date
pub mod Registration
pub mod Statuses
pub mod Tiers
pub mod Fallback
