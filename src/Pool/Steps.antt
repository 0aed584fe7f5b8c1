-- ===== src/Pool/Steps.antt =====
-- Each section under the lock keeps the pool sound.
pub mod Providers
pub mod Jobs
