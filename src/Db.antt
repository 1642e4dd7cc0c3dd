-- ===== src/Db.antt =====
-- apps/api/internal/db: the state that a transaction reads and writes, the wrappers that scope a
-- transaction, and the queries of the auth door.
pub mod State
pub mod Tenant
pub mod Auth
pub mod Samples
pub mod Bootstrap
pub mod Pool
pub mod Atomicity
pub mod Runs
pub mod Hoare
pub mod QueryRuns
pub mod Queries
mod Tests
