-- ===== src/Sync.antt =====
-- The synchronisation protocol of server/internal/sync and the storage that it reads and writes.
pub mod Types
pub mod Repository
pub mod Reader
pub mod Horizon
