-- ===== src/SupportAccess.antt =====
-- Support access: packages/support-access/src/index.ts. `Types` is its data, `Store` its private
-- helpers, `Grants`, `BreakGlass`, `Leases` and `Outbox` its public methods, `State` what it is
-- restored from.
pub mod Types
pub mod Store
pub mod Kinds
pub mod Grants
pub mod BreakGlass
pub mod Leases
pub mod Outbox
pub mod State
pub mod Conflicts
pub mod Consume
pub mod Issue
pub mod Protocol
pub mod Run
pub mod Examples
