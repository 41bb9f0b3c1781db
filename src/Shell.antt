-- ===== src/Shell.antt =====
-- hw1: the command shell.
pub mod Tokens
pub mod Command
pub mod State
pub mod Jobs
pub mod Tokenize
pub mod Trim
pub mod Linked
pub mod Adding
mod Tests
mod ChildTests
mod WaitTests
mod FrontTests
mod ParsingTests
pub mod Commands
pub mod Loop
pub mod Rounds
pub mod Quiet
pub mod Lines
pub mod Input
pub mod Reading
pub mod Terminals
pub mod Redirections
pub mod Redirecting
pub mod Copying
pub mod Parsing
pub mod Startup
pub mod Sessions
pub mod Waiting
pub mod Reaping
pub mod Launching
pub mod Foreground
