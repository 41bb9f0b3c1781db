-- ===== src/Warmup.antt =====
-- hw0: the count of the words of a file, and the programs that print addresses and limits.
pub mod Counting
pub mod Printing
mod Tests
