-- ===== src/Tests.antt =====
-- The theorems at concrete inputs.
pub mod Driver
pub mod Samples
pub mod Workers
pub mod Parts
pub mod Table
pub mod Queues
pub mod Joining
pub mod Options
pub mod Recovery
pub mod Attempts
pub mod Names
pub mod Composing
pub mod Cells
pub mod Hashes
