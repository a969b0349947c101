-- ===== src/Reconcile/Release.antt =====
-- internal/reconcile/release.go: the reconcile loop of a Release.
pub mod Path
pub mod Identity
pub mod Depends
pub mod Phases
pub mod Applying
pub mod Commit
pub mod Attempt
pub mod Deletion
pub mod Loop
