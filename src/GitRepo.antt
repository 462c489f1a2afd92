-- ===== src/GitRepo.antt =====
-- internal/gitrepo: validation of review targets against a local Git repository.
pub mod Buffer
pub mod Command
pub mod Branch
pub mod Target
pub mod Checkout
pub mod Utf8
pub mod Instructions
pub mod Repository
