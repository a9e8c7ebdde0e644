-- ===== src/Examples.antt =====
-- Concrete inputs for the theorems, and runs of the definitions.
mod Types
mod Lookup
mod Workers
mod Expired
mod Conditions
mod Notify
mod Dns
mod Portfolio
mod Utils
mod Email
mod Tiers
mod Config
mod Bootstrap
mod Store
