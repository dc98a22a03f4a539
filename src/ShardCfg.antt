-- ===== src/ShardCfg.antt =====
-- src/shardkv1/shardcfg: configurations, which assign shards to groups of servers.
pub mod Config
pub mod Analyze
pub mod Moves
pub mod Balance
pub mod Checks
pub mod Changes
mod Tests
