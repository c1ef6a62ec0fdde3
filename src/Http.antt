-- ===== src/Http.antt =====
-- http/server.c and http/request_handler.c, the plain HTTP server: a module for each of its parts.
pub mod Base64
pub mod Routes
pub mod Work
pub mod Serve
pub mod TaskQueue
pub mod Loop
pub mod Files
pub mod Static
pub mod Cgi
pub mod Worker
