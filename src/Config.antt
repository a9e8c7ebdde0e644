-- ===== src/Config.antt =====
-- The configuration, from the file's values to those that the program runs with:
-- src/internal/monitor/config.go.
pub mod Result
pub mod Endpoints
pub mod Domain
pub mod Task
pub mod Checks
