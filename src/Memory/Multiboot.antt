-- ===== src/Memory/Multiboot.antt =====
-- kernel/memory/multiboot.c: the boot loader's memory map, copied to `memory_regions`. Memory is
-- its bytes, by address.
pub mod Layout
mod Tests
use miyar_os.Base.{ℕ, zero, suc, ◌+◌, ◌*◌, ◌%◌, ◌^◌, List, [], ◌∷◌, ltb, if◌then◌else◌}
use miyar_os.Fs.Disk.Sector.{get32}
use miyar_os.Memory.Pmm.{Region}

abbrev pub max_memory_regions : ℕ
max_memory_regions = 32

abbrev pub get64 : (ℕ → ℕ) → ℕ → ℕ
get64 mem p = get32 mem p + 2 ^ 32 * get32 mem (p + 4)

-- The entry at an address: `addr`, `len` and `type` of `multiboot_memory_map_t`.
abbrev pub region_at : (ℕ → ℕ) → (entry : ℕ) → Region
region_at mem entry = record {
  base = get64 mem (entry + 4);
  length = get64 mem (entry + 12);
  type = get32 mem (entry + 20);
}

-- `entry->size` and the four bytes of it.
unfoldable pub multiboot_mmap_next : (ℕ → ℕ) → (entry : ℕ) → ℕ
multiboot_mmap_next mem entry = (entry + get32 mem entry + 4) % 2 ^ 32

-- The loop: `room` is MAX_MEMORY_REGIONS less the count.
unfoldable pub copy_regions : (room : ℕ) → (ℕ → ℕ) → (entry end : ℕ) → List Region
unfolding multiboot_mmap_next
copy_regions zero mem entry end = []
copy_regions (suc room) mem entry end =
    let rest = copy_regions room mem (multiboot_mmap_next mem entry) end in
    if ltb entry end then region_at mem entry ∷ rest else []

-- `memory_regions[0 .. memory_region_count)` after the call.
unfoldable pub multiboot_print_memory_map : (ℕ → ℕ) → (mmap_addr mmap_length : ℕ) → List Region
unfolding copy_regions
multiboot_print_memory_map mem mmap_addr mmap_length =
    copy_regions max_memory_regions mem mmap_addr ((mmap_addr + mmap_length) % 2 ^ 32)
