-- ===== src/Helpers.antt =====
-- The pure functions of helpers.js on mail options and recipients.
pub mod Address
pub mod Equality
pub mod Merge
pub mod Escape
