-- ===== src/Asf.antt =====
-- The ASF worker: the run lifecycle (asf/run-event.ts) and the ownership of runs (state/store.ts).
pub mod Phase
pub mod Event
pub mod Edges
pub mod History
pub mod Ownership
pub mod ProviderBudget
