-- ===== src/Cache.antt =====
-- cache/cache.go: the cache with a time to live, which keeps the pending requests.
pub mod Queue
pub mod Table
pub mod Control
mod Tests
