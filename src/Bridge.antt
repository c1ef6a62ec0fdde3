-- ===== src/Bridge.antt =====
-- bridge.c, the WebSocket to XMPP bridge: a module for each of its parts.
pub mod Base64
pub mod Sha1
pub mod Frame
pub mod Handshake
pub mod Session
