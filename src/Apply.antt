-- ===== src/Apply.antt =====
-- internal/apply: server-side apply, drift detection, pruning and impersonation.
pub mod Ssa
pub mod Prune
pub mod Drift
pub mod Impersonate
