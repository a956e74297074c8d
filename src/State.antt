-- ===== src/State.antt =====
-- The store's durable state (src/state/store.ts).
pub mod Breakers
pub mod Ledger
pub mod Leases
pub mod Outbox
pub mod Runs
