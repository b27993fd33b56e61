-- ===== src/Writer.antt =====
-- internal/writer and the stored procedure that it calls.
pub mod Params
pub mod Proc
pub mod Client
pub mod Multi
pub mod Entry
pub mod Upserts
pub mod Occ
pub mod Retry
pub mod Create
pub mod Split
pub mod Paths
pub mod Ambiguity
pub mod Effects
pub mod Landed
pub mod Plain
