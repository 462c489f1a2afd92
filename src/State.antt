-- ===== src/State.antt =====
-- internal/state: the persisted workflow records, their bounds, the request identity, the store
-- and the advisory locks.
pub mod Record
pub mod ObjectId
pub mod History
pub mod Request
pub mod Store
pub mod Lock
