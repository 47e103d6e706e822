-- ===== src/Proxy.antt =====
-- The proxies that serve the plugins over gRPC (src/snap/proxy).
pub mod Heartbeat
pub mod Handlers
pub mod Replies
pub mod Services
