-- ===== src/Alloc.antt =====
-- hw3/mm_alloc.c and hw3/mm_alloc.h: the heap allocator.
pub mod State
pub mod Ops
pub mod Blocks
pub mod Refusals
pub mod Splitting
pub mod Layout
pub mod Serving
mod Tests
mod ClientTests
mod SessionTests
pub mod Extending
pub mod Joining
pub mod Freeing
pub mod Spots
pub mod Live
pub mod Allocating
pub mod Serves
pub mod Settling
pub mod Freed
pub mod Releasing
pub mod Calls
pub mod Session
pub mod Owning
pub mod Agreeing
pub mod Coming
pub mod Keeping
pub mod Frees
pub mod Cases
pub mod Moving
pub mod Realloc
pub mod Shrinking
pub mod Printing
pub mod Harness
pub mod Filling
pub mod Client
