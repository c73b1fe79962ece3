-- ===== src/Secrets.antt =====
-- internal/secrets: the store of one-time secrets.
pub mod Access
pub mod After
pub mod Age
pub mod Calls
pub mod Cancelled
pub mod Create
pub mod Chosen
pub mod Created
pub mod Deliveries
pub mod Finalize
pub mod Histories
pub mod Live
pub mod Load
pub mod Loaded
pub mod Lock
pub mod Manage
pub mod Moves
pub mod Once
pub mod Open
pub mod Opens
pub mod Outcomes
pub mod Proofs
pub mod Protected
pub mod Reaper
pub mod Reconcile
pub mod Reopened
pub mod Revoked
pub mod Roundtrip
pub mod Rows
pub mod Shut
pub mod Sizes
mod Tests
pub mod Sound
pub mod Tables
pub mod Types
pub mod Undone
pub mod Validate
