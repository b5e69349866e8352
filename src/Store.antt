-- ===== src/Store.antt =====
-- gitrank/packages/store: sync jobs, the in-memory job queue and the webhook delivery store.
pub mod Jobs
pub mod SyncJobs
pub mod Queue
pub mod Deliveries
pub mod Built
pub mod Typed
