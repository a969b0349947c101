-- ===== src/Reconcile.antt =====
-- internal/reconcile: the reconcile loops of the controller.
pub mod Outcome
pub mod Verdict
pub mod Module
pub mod Backoff
pub mod World
pub mod Counters
pub mod Release
