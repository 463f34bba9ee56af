-- ===== src/Transfer.antt =====
-- Import and export (src/core/transfer.js).
pub mod Csv
pub mod RoundTrip
pub mod Import
pub mod Json
pub mod Restored
pub mod Bounds
mod Tests
