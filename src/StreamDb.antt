-- ===== src/StreamDb.antt =====
-- The embedded database of src/db/streamdb.c.
pub mod Types
pub mod Keys
pub mod Find
pub mod Measure
pub mod Insert
pub mod Delete
pub mod Iterate
pub mod Serialize
pub mod Input
pub mod Deserialize
pub mod Flush
pub mod Depth
pub mod Search
pub mod Contract
pub mod Stored
pub mod Open
mod Tests
