-- ===== src/Mm.antt =====
-- mm/: kernel memory.
pub mod Heap
pub mod Pages
