-- ===== src/Connector.antt =====
-- connector/: message contexts, the publishers and subscribers, the connection and the
-- reference-counted subscriptions.
pub mod Context
pub mod Subscriptions
pub mod Listeners
pub mod Connection
pub mod Reconnect
pub mod Publisher
pub mod RateLimiter
pub mod Wrapper
pub mod Stubs
pub mod Subscriber
pub mod Dynamic
pub mod Trace
pub mod Config
mod Tests
