-- ===== src/Persistence.antt =====
-- src/persistence/: the repositories, their SQLite form, the JSON text format, the
-- write-ahead log, and the snapshots.
pub mod Repository
pub mod InMemory
pub mod Json
pub mod Serializer
pub mod Deserializer
pub mod Parser
pub mod Snapshot
pub mod Sqlite
pub mod Wal
pub mod Tests
mod TextTests
mod SqliteTests
