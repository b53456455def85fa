-- ===== src/Fs/Directory.antt =====
-- kernel/fs/directory.c: directories, over the table of fat32.c.
pub mod Entry
pub mod Name
pub mod Scan
pub mod Slots
pub mod Iterate
pub mod Listing
pub mod Contents
pub mod Created
mod Tests
