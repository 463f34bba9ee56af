-- ===== src/Sync.antt =====
-- The sync client of src/core/sync.js.
pub mod Codes
pub mod Client
pub mod Round
pub mod Once
pub mod Joining
pub mod Always
pub mod Marks
pub mod Marked
pub mod Served
pub mod Routes
pub mod Reached
mod Tests
