-- ===== src/Types.antt =====
-- The data model: src/internal/monitor/types.go and the enumerations of constants.go beside it.
pub mod Code
pub mod Epp
pub mod Status
pub mod Condition
pub mod Float
pub mod Config
pub mod Results
pub mod Names
pub mod Portfolio
