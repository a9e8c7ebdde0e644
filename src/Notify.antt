-- ===== src/Notify.antt =====
-- Alerts and their delivery: src/internal/monitor/notify.go.
pub mod Order
pub mod Queue
pub mod Report
