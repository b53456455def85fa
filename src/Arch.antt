-- ===== src/Arch.antt =====
-- kernel/arch/x86: the tables of the processor and the handlers of its interrupts.
pub mod Gdt
pub mod Idt
pub mod Irq
pub mod Report
mod Tests
