-- ===== src/Drivers.antt =====
-- kernel/drivers: the keyboard's buffer and the text screen, and the terminal over it.
pub mod Keyboard
pub mod Pic
pub mod Ata
pub mod Timer
pub mod Serial
pub mod Vga
pub mod Terminal
