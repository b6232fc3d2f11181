-- ===== src/Db.antt =====
-- packages/modeldb: schemas and values, validation, orders and queries, SQLite and IndexedDB.
pub mod Types
pub mod Validate
pub mod Order
pub mod Query
pub mod Sqlite
pub mod Idb
pub mod Config
pub mod Subscriptions
pub mod Tests
