-- ===== src/Examples.antt =====
-- Concrete runs, rows and issues, and the theorems at them.
pub mod Histories
pub mod Owners
pub mod Breakers
pub mod Daemons
pub mod Budgets
pub mod Issues
pub mod Stacks
pub mod Checks
pub mod Diffs
pub mod Leases
pub mod Reviews
pub mod Runs
pub mod ProviderBudgets
