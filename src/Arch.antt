-- ===== src/Arch.antt =====
-- The tables of the processor: segments, gates, and the context of a thread.
pub mod Segments
pub mod Gates
pub mod Context
mod Tests
