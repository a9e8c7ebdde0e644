-- ===== src/Cycle.antt =====
-- One monitoring cycle: src/internal/monitor/runtime.go.
pub mod Slots
pub mod Workers
pub mod Expired
pub mod Conditions
pub mod Registration
pub mod Transitions
pub mod Budget
pub mod Store
