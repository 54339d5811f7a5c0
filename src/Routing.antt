-- ===== src/Routing.antt =====
-- routing/: the handlers between the local broker and the hub.
pub mod Gateway
pub mod Events
pub mod Commands
pub mod LogMessage
pub mod Subscription
pub mod Status
pub mod Buses
mod Tests
