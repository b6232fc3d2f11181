-- ===== src/Gossip/Log.antt =====
-- packages/gossiplog/src/AbstractGossipLog.ts: messages are encoded, appended, inserted and synced.
pub mod Types
pub mod Ancestors
pub mod Insert
pub mod Sync
pub mod Closed
pub mod Keeps
pub mod Operations
pub mod Reach
pub mod Fuel
pub mod Heads
pub mod Decay
pub mod Missing
pub mod Thrown
pub mod Tests
