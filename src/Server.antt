-- ===== src/Server.antt =====
-- The server (server.go, server_stop.go, server_build_handler.go).
pub mod Stop
pub mod Books
pub mod Safety
pub mod Liveness
pub mod Config
pub mod Handler
pub mod Answers
