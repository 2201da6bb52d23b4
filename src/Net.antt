-- ===== src/Net.antt =====
-- src/net: the HTTP client and the URLs of the server's interface.
pub mod Endpoints
pub mod Client
pub mod Examples
