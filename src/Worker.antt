-- ===== src/Worker.antt =====
-- internal/worker: receipts and attempts of jobs, and the processor that runs a job under them.
mod Tests
mod MessageTests
pub mod Tables
pub mod Store
pub mod Atomic
pub mod Moves
pub mod Parts
pub mod Begins
pub mod Claims
pub mod Starts
pub mod Refines
pub mod Failures
pub mod Settles
pub mod Fails
pub mod Counts
pub mod Invariant
pub mod Changes
pub mod Keeps
pub mod Reach
pub mod Verdict
pub mod Finish
pub mod Live
pub mod Final
pub mod Cleanup
pub mod Processor
pub mod Rows
pub mod Answers
pub mod Delivery
pub mod Consumer
