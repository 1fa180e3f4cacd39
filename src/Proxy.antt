-- ===== src/Proxy.antt =====
-- pkg/proxy: routing.
pub mod Resolve
pub mod Headers
pub mod Response
