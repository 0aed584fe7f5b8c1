-- ===== src/Pool.antt =====
-- internal/pool: queues and slots. `Defs` has the operations, the other modules their properties.
pub mod Defs
pub mod Snapshot
pub mod Best
pub mod Accounts
pub mod Serve
pub mod Invariant
pub mod Steps
pub mod Runs
pub mod Tests
