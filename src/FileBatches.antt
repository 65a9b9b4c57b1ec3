-- ===== src/FileBatches.antt =====
-- Batches of uploaded files, daemon/internal/filebatches. A Store is the content of its root
-- directory: the stages below .phonepad-staging and the published folders. The mutex makes each
-- method one step. Every write to the disk succeeds here and no process dies between two of them, so
-- what a method reads is what a method wrote.
pub mod Manifest
pub mod Disk
pub mod Store
pub mod History
pub mod Publishing
pub mod Published
pub mod Chunks
pub mod Capacity
pub mod Tests
