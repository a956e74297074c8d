-- ===== src/Orchestrator.antt =====
-- Unattended operation (src/orchestrator).
pub mod Breakers
pub mod Daemon
pub mod Budget
pub mod Risk
pub mod Effects
