-- ===== src/Lamport.antt =====
-- lamport-clocks/lamport.py: the clocks, the nodes, and the order of their events.
pub mod Node
pub mod Order
mod Tests
