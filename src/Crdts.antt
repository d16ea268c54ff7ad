-- ===== src/Crdts.antt =====
-- conflict-free-replicated-data-types/crdts.py: the grow-only counter and the observed-remove set.
pub mod Counter
pub mod Set
pub mod Join
mod Tests
