-- ===== src/Push.antt =====
-- The push side: mutations of an offline client, applied one by one (server/internal/sync/push.go
-- and server/internal/storage/push_commit.go).
pub mod Rows
pub mod Types
pub mod Storage
pub mod Items
pub mod Merge
pub mod Item
pub mod Apply
pub mod Batch
pub mod Entity
pub mod Location
pub mod Label
pub mod ItemLabel
pub mod Adjustment
pub mod Dispatch
pub mod Tests
