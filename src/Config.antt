-- ===== src/Config.antt =====
-- config/: the settings, the connections that are made from them, and the first connect to the hub.
pub mod HonoConnect
pub mod LocalConnect
pub mod Settings
pub mod Provisioning
pub mod Tls
pub mod Connections
pub mod Files
pub mod Setup
mod Tests
