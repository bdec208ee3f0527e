-- ===== src/Proxy.antt =====
-- crates/atem-proxy: configuration, the lock broker, the transfer lane, the command filter, the
-- state cache, and the two sides of the proxy, clients (`Server`) and switcher (`Upstream`).
pub mod Net
pub mod Config
pub mod Locks
pub mod Transfer
pub mod Filter
pub mod Cache
pub mod Server
pub mod Upstream
pub mod Mdns
pub mod Main
pub mod System
