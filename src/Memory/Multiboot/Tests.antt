-- ===== src/Memory/Multiboot/Tests.antt =====
-- A memory map of two regions at 0x1000.
use miyar_os.Base.{ℕ, ◌≡◌, refl, [], ◌∷◌, ◌==◌, take, if◌then◌else◌, arith}
use miyar_os.Memory.Multiboot.{region_at, multiboot_print_memory_map}
use miyar_os.Memory.Multiboot.Layout.{Laid, laid_end, laid, multiboot_print_memory_map-Laid}

-- Both entries have the size 20; the second starts at 1 MB and is of type 1.
abbrev mem : ℕ → ℕ
mem i =
    if i == 0x1000
    then 20
    else if i == 0x1018
    then 20
    else if i == 0x101E
    then 16
    else if i == 0x1026
    then 64
    else if i == 0x102C
    then 1
    else 0

two_regions : Laid mem 0x1000 0x1030 (region_at mem 0x1000 ∷ region_at mem 0x1018 ∷ [])
two_regions = laid 20 refl (laid 20 refl (laid_end 0x1030))

multiboot_print_memory_map-Laid_example :
    multiboot_print_memory_map mem 0x1000 0x30
    ≡ take 32 (region_at mem 0x1000 ∷ region_at mem 0x1018 ∷ [])
multiboot_print_memory_map-Laid_example =
    multiboot_print_memory_map-Laid mem 0x1000 0x30
      (region_at mem 0x1000 ∷ region_at mem 0x1018 ∷ []) (omega arith) two_regions
