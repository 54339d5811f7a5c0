-- ===== src/Util.antt =====
-- util/utils.go: the functions on topics and on time-out texts.
pub mod Topic
pub mod Timeout
pub mod Certificate
pub mod File
mod Tests
