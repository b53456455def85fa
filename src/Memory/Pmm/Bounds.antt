-- ===== src/Memory/Pmm/Bounds.antt =====
-- The size of `frame_bitmap` against the number of frames that `pmm_init` counts.
use miyar_os.Base.{ℕ, ◌-◌, ◌/◌, ◌^◌, ◌≤◌, ◌<◌, ◌↔◌, arith, List}
use miyar_os.Memory.Pmm.{Pmm, Region, max_frames, bitmap_bytes, init}
use miyar_os.Memory.Pmm.Bitmap.{IsValid}
use miyar_os.Memory.Pmm.Init.{highest_end, total-init}

-- Where no region ends above 2^44 - 2^12, the bytes that `pmm_init` writes for the frames it counts
-- all lie in `frame_bitmap` exactly if no region ends above 4 GiB.
pub init_fits :
    (rs : List Region) (p : Pmm)
    → IsValid p
    → (kernel_start kernel_end : ℕ) → highest_end rs 0 ≤ 2 ^ 44 - 2 ^ 12
    → ((f : ℕ) → f < (init rs kernel_start kernel_end p).total_frames → f / 8 < bitmap_bytes)
      ↔ (highest_end rs 0 ≤ 2 ^ 32)
init_fits rs p v ks ke h = (
  λ fits. grind (arith, fits max_frames, total-init rs p v ks ke),
  λ small f lt. omega (arith, total-init rs p v ks ke),
)
