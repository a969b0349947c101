-- ===== src/Status.antt =====
-- internal/status: conditions, failure counters, history and digests of a release's status.
pub mod Conditions
pub mod Counters
pub mod History
pub mod Digests
