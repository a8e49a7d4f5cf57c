-- ===== src/Push.antt =====
-- packages/push-notifications/src/index.ts: subscriptions of devices, the outbox of notifications and
-- its delivery, as `InMemoryPushRepository` keeps them. Calls run one after the other.
pub mod Types
pub mod Subscriptions
pub mod Outbox
pub mod Waiting
pub mod Run
pub mod Rejected
pub mod Repeated
pub mod Once
pub mod Attempts
pub mod Examples
