-- ===== src/Review.antt =====
-- The review of a change (src/review/schema.ts).
pub mod RiskPath
pub mod Verdict
