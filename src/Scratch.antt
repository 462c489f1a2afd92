-- ===== src/Scratch.antt =====
-- internal/scratch: the disposable checkouts of build-capable reviews and the sweep of old caches.
pub mod Tree
pub mod Sweep
pub mod Root
pub mod Prepare
