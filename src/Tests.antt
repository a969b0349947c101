-- ===== src/Tests.antt =====
-- Runs of the theorems at concrete inputs.
pub mod Sample
pub mod Reconcile
pub mod Objects
pub mod Status
pub mod Controller
pub mod Source
pub mod Module
pub mod Errors
pub mod Render
