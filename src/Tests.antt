-- ===== src/Tests.antt =====
-- Concrete runs of the models, at which the theorems' hypotheses hold.
pub mod State
mod AppServer
mod Review
mod Conn
mod GitRepo
mod Config
mod Report
mod Scratch
mod Mcp
