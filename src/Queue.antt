-- ===== src/Queue.antt =====
-- The choice of the next issue (src/queue, src/domain/types.ts).
pub mod Issue
pub mod Compare
pub mod Ordering
pub mod Mapping
pub mod Eligibility
pub mod Selector
pub mod Stack
pub mod GitLease
