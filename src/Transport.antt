-- ===== src/Transport.antt =====
-- internal/transport
pub mod Grpc
pub mod Http
pub mod Server
pub mod Shared
