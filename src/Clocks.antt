-- ===== src/Clocks.antt =====
-- vector-clocks/vector_clock.py: the clocks, their order, and the store of siblings.
pub mod Clock
pub mod Order
pub mod Store
pub mod Siblings
pub mod Conflicts
mod Tests
