-- ===== src/Scheduler.antt =====
-- The scheduler: gitrank/services/scheduler-worker/internal/service.
pub mod State
pub mod Enqueue
pub mod Plans
pub mod Tick
pub mod Actions
pub mod Decode
pub mod Execute
pub mod Runs
pub mod Requests
pub mod Reaches
mod Rates
mod Calls
mod JobCalls
mod PlanCalls
mod Refines
pub mod Worked
mod JobSettles
pub mod Settles
mod PlanLists
mod PlanRuns
pub mod Dues
pub mod Accounts
mod Remembered
pub mod Again
pub mod Deletes
pub mod Durable
pub mod Atomic
mod Samples
mod Examples
mod WorkerExamples
