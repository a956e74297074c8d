-- ===== src/Workspace.antt =====
-- The path policy of a candidate diff (src/workspace/path-scope.ts).
pub mod Texts
pub mod Paths
pub mod Expression
pub mod Segments
pub mod Pattern
pub mod Diff
