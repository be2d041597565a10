-- ===== src/Proxy.antt =====
-- `src/proxy`: the local proxy and the handshakes with the upstream proxy.
pub mod Tcp
pub mod Socks5
pub mod Http
pub mod Config
pub mod Relay
pub mod Local
