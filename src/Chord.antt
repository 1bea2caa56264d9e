-- ===== src/Chord.antt =====
-- chord: the ring of nodes.
pub mod Ring
pub mod LocalNode
pub mod Remote
pub mod Stabilize
pub mod Steady
pub mod Handlers
pub mod Routing
