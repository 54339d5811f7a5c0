-- ===== src/App.antt =====
-- cmd/connector/: the launcher, and the loop that restarts it when the provisioning file changes.
pub mod EventLoop
pub mod Launcher
pub mod Run
pub mod Main
mod Tests
