-- ===== src/Reconcile/Module.antt =====
-- internal/reconcile/modulerelease.go: the loop over modules of a registry.
pub mod World
pub mod Applying
pub mod Attempt
pub mod Commit
pub mod Deletion
pub mod Loop
