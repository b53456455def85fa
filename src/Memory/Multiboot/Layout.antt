-- ===== src/Memory/Multiboot/Layout.antt =====
-- A memory map that is laid out as the boot loader lays it out is read as it is.
use miyar_os.Base.{
  ℕ, zero, suc, ◌+◌, ◌%◌, ◌^◌, ◌<◌, ◌≤◌, ◌≡◌, refl, true, false, List, [], ◌∷◌, take, ltb, arith,
}
use miyar_os.Fs.Disk.Sector.{get32}
use miyar_os.Memory.Pmm.{Region}
use miyar_os.Memory.Multiboot.{
  region_at, multiboot_mmap_next, copy_regions, multiboot_print_memory_map,
}

-- The regions stand in memory from an address to another, each behind the size of its entry.
pub data Laid (mem : ℕ → ℕ) : (entry end : ℕ) → List Region → Type 0 where
  laid_end : (p : ℕ) → Laid mem p p []
  laid :
      {p end : ℕ} {regions : List Region} (size : ℕ)
      → get32 mem p ≡ size
      → Laid mem (p + size + 4) end regions
      → Laid mem p end (region_at mem p ∷ regions)

Laid-le : {mem : ℕ → ℕ} {p end : ℕ} {regions : List Region} → Laid mem p end regions → p ≤ end
Laid-le (laid_end p) = omega arith
Laid-le (laid size is below) = let le = Laid-le below in omega (arith, le)

copy_regions-Laid :
    (room : ℕ) (mem : ℕ → ℕ) (p end : ℕ) (regions : List Region)
    → end < 2 ^ 32
    → Laid mem p end regions
    → copy_regions room mem p end ≡ take room regions
unfolding copy_regions multiboot_mmap_next
copy_regions-Laid zero mem p end regions small h = refl
copy_regions-Laid (suc room) mem p _ [] small (laid_end _) =
    let past : ltb p p ≡ false = ground arith in rw (past) refl
copy_regions-Laid (suc room) mem p end (_ ∷ regions) small (laid size is below) =
    let le = Laid-le below in
    let more : ltb p end ≡ true = ground (arith, le) in
    let on : (p + get32 mem p + 4) % 2 ^ 32 ≡ p + size + 4 = omega (arith, is, le, small) in
    rw (more, on, copy_regions-Laid room mem (p + size + 4) end regions small below) refl

-- A map that ends within 32 bits is copied region by region, in its order, the first 32 of them.
pub multiboot_print_memory_map-Laid :
    (mem : ℕ → ℕ) (mmap_addr mmap_length : ℕ) (regions : List Region)
    → mmap_addr + mmap_length < 2 ^ 32
    → Laid mem mmap_addr (mmap_addr + mmap_length) regions
    → multiboot_print_memory_map mem mmap_addr mmap_length ≡ take 32 regions
unfolding multiboot_print_memory_map
multiboot_print_memory_map-Laid mem mmap_addr mmap_length regions small h =
    let is : (mmap_addr + mmap_length) % 2 ^ 32 ≡ mmap_addr + mmap_length = omega (arith, small) in
    rw (is) (copy_regions-Laid 32 mem mmap_addr (mmap_addr + mmap_length) regions small h)
