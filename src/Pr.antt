-- ===== src/Pr.antt =====
-- Pull requests (src/pr).
pub mod Reconcile
