-- ===== src/Handoff.antt =====
-- Hinted handoff, hinted-handoff/hinted_handoff.py.
pub mod Node
pub mod Store
pub mod Delivered
pub mod Acknowledged
mod Tests
