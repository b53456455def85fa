-- ===== src/Fs.antt =====
-- kernel/fs: the FAT32 volume, its directories, and paths.
pub mod Disk
pub mod Fat32
pub mod Path
pub mod Directory
pub mod Mount
pub mod Lookup
pub mod Commands
pub mod File
