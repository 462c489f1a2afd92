-- ===== src/AppServer.antt =====
-- internal/appserver: the session with the codex app-server child process.
pub mod Usage
pub mod Notification
pub mod Watcher
pub mod Conn
pub mod Outcome
pub mod Warnings
pub mod Policy
pub mod Toml
