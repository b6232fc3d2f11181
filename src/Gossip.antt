-- ===== src/Gossip.antt =====
-- packages/gossiplog: clocks and keys of messages, the mempool, the log, and its cache.
pub mod Locks
pub mod Clock
pub mod CacheMap
pub mod Mempool
pub mod Log
pub mod Driver
pub mod Schema
