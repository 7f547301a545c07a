-- ===== src/Fs.antt =====
-- fs/: the virtual file system, its special files and FAT.
mod Tests
pub mod Fat
pub mod Pipe
pub mod FatFile
pub mod Mbr
pub mod Tree
