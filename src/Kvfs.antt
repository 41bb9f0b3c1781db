-- ===== src/Kvfs.antt =====
-- hw4/kvfs.c and hw4/kvfs.h: the key-value file system behind FUSE.
pub mod State
pub mod Superblock
pub mod Handlers
pub mod Table
pub mod Find
pub mod Invariant
pub mod ReadWrite
pub mod RoundTrip
pub mod Distinct
pub mod Shift
pub mod Names
pub mod Doubled
pub mod Errors
pub mod Good
pub mod Serving
pub mod Reaching
pub mod Mount
pub mod Model
pub mod Sessions
pub mod Represents
pub mod Refines
pub mod Fresh
mod Tests
