-- ===== src/Routing/Commands.antt =====
-- routing/commands.go: requests from the hub to the local broker, and responses back. The envelope's
-- JSON decoding is a library's and is an argument, the cache of pending requests an interface, which Pending fills.
pub mod Defs
pub mod Request
pub mod Response
pub mod RoundTrip
pub mod Pending
pub mod Lifetime
mod Tests
