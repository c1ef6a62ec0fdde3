-- ===== src/Xmppd.antt =====
-- xmppd.c, the chat daemon: a module for each of its parts.
pub mod Rooms
pub mod Xml
pub mod Stanza
pub mod Daemon
