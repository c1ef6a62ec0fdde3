-- ===== src/Https.antt =====
-- https/server.c and https/request_handler.c, the HTTPS server: what it does otherwise than the
-- plain server of Http.
pub mod Outbox
pub mod Tunnel
pub mod Events
pub mod Clients
pub mod Requests
