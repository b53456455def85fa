-- ===== src/Memory/Pmm/Tests.antt =====
-- The frame allocator on a map of nine usable pages below one reserved page.
use miyar_os.Base.{
  ℕ, ◌/◌, ◌^◌, ◌≡◌, ◌<◌, ◌≤◌, ◌↔◌, ◌||◌, ◌==◌, ltb, not, refl, false, List, [], ◌∷◌, arith,
}
use miyar_os.Memory.Pmm.{
  Pmm, Region, bitmap_bytes, bitmap_set, bitmap_reset, bitmap_test, init, alloc_frame, free_frames,
}
use miyar_os.Memory.Pmm.Bitmap.{IsValid}
use miyar_os.Memory.Pmm.Alloc.{Allocation, alloc_frame-Allocation}
use miyar_os.Memory.Pmm.Init.{highest_end}
use miyar_os.Memory.Pmm.Frames.{touches, available, below_an_end, init_lem}
use miyar_os.Memory.Pmm.Bounds.{init_fits}

abbrev regions : List Region
regions =
    record { base = 0; length = 0x8800; type = 1 }
    ∷ record { base = 0x8800; length = 0x1800; type = 2 }
    ∷ []

abbrev blank : Pmm
blank = record { total_frames = 0; total_memory = 0; usable_memory = 0; bitmap = λ i. 0 }

-- Frames 0 and 2 are taken.
abbrev small : Pmm
small = record { total_frames = 4; total_memory = 0; usable_memory = 0; bitmap = λ i. 5 }

blank-IsValid : IsValid blank
blank-IsValid = omega arith

small-IsValid : IsValid small
small-IsValid = omega arith

-- The kernel's image is frames 2 and 3. Frame 8 is free, although its upper half is reserved.
init_run :
    (free_frames (init regions 0x2000 0x3800 blank) ≡ 6)
    × (bitmap_test (init regions 0x2000 0x3800 blank) 8 ≡ false)
unfolding init free_frames bitmap_set bitmap_reset bitmap_test
init_run = (refl, refl)

alloc_run : (alloc_frame small).0 ≡ 4096
unfolding alloc_frame bitmap_set bitmap_test
alloc_run = refl

alloc_frame-Allocation_example : Allocation small 0 4 (alloc_frame small)
alloc_frame-Allocation_example = alloc_frame-Allocation small

init_lem_example :
    IsValid (init regions 0x2000 0x3800 blank)
    × ((g : ℕ) → ltb g (init regions 0x2000 0x3800 blank).total_frames ≡ below_an_end regions g)
    × ((g : ℕ)
        → g < (init regions 0x2000 0x3800 blank).total_frames
        → bitmap_test (init regions 0x2000 0x3800 blank) g
          ≡ ((0 == g) || touches 0x2000 0x3800 g || not (available regions g)))
init_lem_example =
    init_lem regions blank blank-IsValid 0x2000 0x3800
      (omega arith, omega arith, (omega arith, omega arith, tt)) (omega arith) (omega arith)

init_fits_example :
    ((f : ℕ) → f < (init regions 0x2000 0x3800 blank).total_frames → f / 8 < bitmap_bytes)
    ↔ (highest_end regions 0 ≤ 2 ^ 32)
init_fits_example = init_fits regions blank blank-IsValid 0x2000 0x3800 (omega arith)
