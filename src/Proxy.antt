-- ===== src/Proxy.antt =====
-- pkg/proxy: the capture of a client's handshake and the connection handler.
pub mod Handshake
pub mod Reader
pub mod Server
pub mod Lifecycle
pub mod Syslog
pub mod Audit
pub mod Main
