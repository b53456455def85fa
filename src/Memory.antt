-- ===== src/Memory.antt =====
-- kernel/memory: the frame allocator, the kernel heap, and address spaces with their page tables.
pub mod Pmm
pub mod Multiboot
pub mod Heap
pub mod Vm
