-- ===== src/Browser.antt =====
-- src/browser_driver.cpp: what the driver of the browser speaks on the wire.
pub mod Base64
pub mod WebSocket
pub mod Sha1
pub mod Handshake
pub mod Commands
mod Tests
