-- ===== src/Review.antt =====
-- internal/review: one review round, from the request to the saved record.
pub mod Eviction
pub mod Completed
pub mod Act
pub mod Prompt
pub mod Service
