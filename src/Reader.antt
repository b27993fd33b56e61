-- ===== src/Reader.antt =====
-- internal/reader: the shard predicate, the list and the watcher's poll.
pub mod Shard
pub mod Rows
pub mod Poll
pub mod Send
pub mod List
pub mod Run
pub mod Listen
