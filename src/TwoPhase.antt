-- ===== src/TwoPhase.antt =====
-- two-phase-commit/two_phase_commit.py: participants, the coordinator, and what a transaction leaves.
pub mod Participant
pub mod Coordinator
mod Tests
