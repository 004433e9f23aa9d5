-- ===== src/Spikes.antt =====
-- The spikes on turning questions into SQL: their data, the expected answers, the guards on generated SQL,
-- and their runs.
pub mod Loops
pub mod Calendar
pub mod Seed
pub mod Groups
pub mod Expected
pub mod Sql
pub mod Rows
pub mod Service
pub mod Accuracy
pub mod Thelook
