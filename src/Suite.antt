-- ===== src/Suite.antt =====
-- hw4/tests: the test runner and its suite.
pub mod Running
pub mod FsTests
mod Tests
