-- ===== src/Http.antt =====
-- hw2: the HTTP server and its small library.
pub mod Request
pub mod Response
pub mod Files
pub mod Options
pub mod Settings
pub mod Proxy
pub mod RequestLine
pub mod Replies
pub mod Relaying
mod Tests
pub mod Directories
pub mod Sockets
