-- ===== src/Store/Queue.antt =====
-- gitrank/packages/store/memory.go: `InMemoryJobQueue`.
pub mod State
pub mod Transitions
pub mod Leases
pub mod Admission
pub mod Steps
pub mod Lifecycle
pub mod History
pub mod Evolution
pub mod Dedupe
pub mod Duplicates
pub mod Lookups
pub mod Settled
pub mod Leasing
pub mod Guarantees
pub mod Failures
pub mod Counts
pub mod Letters
pub mod Recorded
pub mod Views
mod Examples
