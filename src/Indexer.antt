-- ===== src/Indexer.antt =====
-- backend/src/indexer, apart from the payouts: how the program's events are read and followed.
pub mod Logs
pub mod Stream
pub mod Store
pub mod Feed
pub mod Sync
