-- ===== src/Klibc.antt =====
-- lib/: the kernel's part of the C library.
mod Tests
pub mod Utf8
pub mod Printf
