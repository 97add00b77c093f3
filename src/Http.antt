-- ===== src/Http.antt =====
-- Net/HTTP/http.h, http.cpp and the connection handler of HttpServer.h.
pub mod Fields
pub mod Message
pub mod Request
pub mod Response
pub mod Router
pub mod Parser
pub mod Server
pub mod Client
mod Tests
