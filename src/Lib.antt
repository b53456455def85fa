-- ===== src/Lib.antt =====
-- Miyar-OS, a kernel for 32-bit x86: its memory management, threads and processes, FAT32 file
-- system (the table, paths, directories and files), its drivers, its interrupts and its shell, as
-- functions on their state.
--
-- The parts, and the files that model them (source paths are from the repository's root):
--
-- Base: Boolean tests on numbers, arrays, maps, single bits and errors.
-- Memory/Pmm: kernel/memory/pmm.c, the bitmap of page frames. `init` is `pmm_init` with the memory map
--   of the boot loader and the kernel's two linker symbols as arguments; Init follows its loops by
--   frames, Frames by the bytes of the regions.
-- Memory/Multiboot: kernel/memory/multiboot.c, the boot loader's memory map in memory as its bytes.
-- Memory/Heap: kernel/memory/heap.c. The heap is seen through its block headers, by offset.
-- Memory/Vm: kernel/memory/paging.c, address_space.c and vmm.c over the frames and the heap. Paging is
--   `paging_init`, Space is address_space.c, Map is vmm.c; page tables are words at addresses.
-- Process/Kernel: the records of thread.h and process.h at their addresses and the static variables of
--   thread.c and process.c. Thread is the queues and the life of a thread, Switch is `thread_yield`,
--   `thread_block`, `thread_terminate` and `process_exit`, Proc is process.c, Scheduler is scheduler.c.
--   Process/Queue holds what the linked queues mean: a chain of `next` fields from head to tail.
-- Fs/Disk: kernel/drivers/disk.c and the transfers of ata.c over a drive that is a parameter.
-- Fs/Fat32: kernel/fs/fat32.c. Geometry is the place of an entry in the table, Entry the reading and
--   writing of one, Find the search for a free cluster, Chain the allocation of one,
--   Free the freeing of a chain.
-- Fs/Path: the splitting, normalising and building of paths of kernel/fs/path.c.
-- Fs/Directory: kernel/fs/directory.c. Entry is the record of 32 bytes, Name the names of 8 and 3
--   characters, Scan the three nested loops that the searches share, Slots the operations that look for
--   one entry and write its sector back, Iterate `directory_t` and what reads with it. Listing and
--   Contents hold what the searches mean: a directory as the list of its slots.
-- Fs/Mount: kernel/fs/fs.c. Fs/Lookup: `path_lookup` and `path_resolve` of path.c. Fs/Commands: the
--   operations of directory.c on paths.
-- Fs/File: kernel/fs/file.c. Read is `file_read`, Write `file_write` and `file_append`, Paths and
--   Copy the operations on paths.
-- Strings: kernel/lib/string.c on a memory of bytes; Holds is a string in the memory. The file system's
--   model compares strings by `same_string`, and copies them as values.
-- Drivers/Keyboard, Drivers/Vga: kernel/drivers/keyboard.c and vga.c. Drivers/Terminal:
--   kernel/terminal.c with the bytes that serial.c sends. Drivers/Pic, Timer and Serial: pic.c,
--   timer.c and `serial_init`, as the writes to ports. Drivers/Ata: the commands of ata.c on ports
--   that are a parameter; Detect is the search for drives.
-- Arch: kernel/arch/x86. Gdt and Idt are the tables, Irq is `irq_handler` with the timer, the
--   scheduler and the keyboard, Report the reports of exceptions.c, page_fault.c and panic.c.
-- Shell: kernel/shell.c. Parse is the words of a line, Print `write_uint32`, Commands the commands
--   that print and `cd`, Files those on names, Echo `cmd_echo`, Execute the table and
--   `shell_execute`, Line the loop at the end of `kernel_main` in kernel/kernel.c.
--
-- A thread is made from the heap, and a process from the heap and an address space; an address
-- space takes frames and a table of pointers from the heap; the FAT32 chain allocation takes its
-- array from the heap; a directory is a chain of the table, whose clusters the searches go through,
-- and it is extended by a cluster from the table; files are opened, made, moved and deleted by
-- look-ups of paths in directories; the switch of threads activates the address space of the next
-- thread's process; the keyboard's interrupt fills the buffer that the loop of `kernel_main`
-- empties into a line, which the shell takes apart, and whose commands work on files and print on
-- the terminal.
--
-- Numbers are natural numbers. Where the source computes in `uint32_t` or `uint64_t`, the remainder by
-- 2^32 or 2^64 is written out; pointers are addresses, 0 for NULL.
--
-- Fuel: the walk of the heap has fuel for one block more than the heap has room for headers, which
-- is enough where the blocks follow each other up to the offset, and gives `stuck` when it is used
-- up. The walks of the linked lists of threads and processes take fuel from the caller, which must
-- be above the length of the list, and give `none` when it is used up. The walks along a chain of
-- clusters, `last_cluster`, the searches of directories and what is built on them, take fuel too,
-- since a chain with a cycle has no end, and give `none` when it is used up; more fuel than the
-- chain has clusters is enough, and for `directory_next` and what is built on it more than the
-- directory has entries. The loops of `file_read` and `file_write_internal` copy a byte at least in
-- a round, so the number of bytes is fuel enough. The loop of the shell over arguments takes a byte
-- at least in a round. The waits for the disk controller take fuel, since it may stay busy. Every
-- other loop is bounded by its own counter.
--
-- A drive is a parameter: a state, a read and a write. `IsReliable` is what a drive is documented to do,
-- that a sector written is read back and no other sector changes.
--
-- Not modelled: the terminal messages of the parts other than the shell and the reports, the
-- interrupt flag (each operation is one step), invalidation of the TLB, the loading of the tables
-- and the stubs (assembly; the stubs' addresses are arguments), the order of the start in
-- `kernel_main`, the boot code, and the kernel's own tests. Null pointers other than the disk's are
-- left out, and so are the fields `current_cluster_index` of `file_t` and `size_mb` of
-- `ata_device_t`, which nothing uses. The file system stands on a drive whose transfers are a
-- parameter; that the commands of Drivers/Ata are such a drive is not shown, since it hangs on what
-- the controller does.
pub mod Base
pub mod Memory
pub mod Process
pub mod Drivers
pub mod Fs
pub mod Strings
pub mod Shell
pub mod Arch
