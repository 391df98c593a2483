-- ===== src/MailTime.antt =====
-- index.js: the class `MailTime` and its helpers.
pub mod State
pub mod Transports
pub mod Pool
pub mod Render
pub mod Compose
pub mod Options
pub mod Checks
pub mod Scheduler
pub mod Configure
pub mod Queueing
pub mod Lifecycle
pub mod Errors
pub mod Recipients
pub mod Send
pub mod Startup
pub mod Renewal
