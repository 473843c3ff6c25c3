-- ===== src/Sync.antt =====
-- internal/caldav/sync.py and internal/caldav/sync_token.py: the synchronisation of the local cache.
pub mod Dict
pub mod Equality
pub mod Rows
pub mod Urls
pub mod Transport
pub mod Snapshot
pub mod Engine
mod Tests
