-- ===== src/Network.antt =====
-- pkg/network: the message queue, the connection that two ends share, the client and the server.
pub mod Queue
pub mod Connection
pub mod Client
pub mod Server
pub mod TlsConfig
