-- ===== src/Memory/Pmm/Frames.antt =====
-- What `pmm_init` leaves, in terms of the bytes of the regions and of the kernel's image.
use miyar_os.Base.{
  ℕ, ◌+◌, ◌-◌, ◌*◌, ◌%◌, ◌^◌, ◌<◌, ◌≤◌, ◌≡◌, ap, ◌∙◌, Bool, false, not, ◌&&◌, ◌||◌, List, [], ◌∷◌,
  ◌==◌, ltb, if◌then◌else◌, arith, refl,
}
use miyar_os.Memory.Pmm.{Pmm, Region, bitmap_test, frames_below, init}
use miyar_os.Memory.Pmm.Bitmap.{IsValid}
use miyar_os.Memory.Pmm.Init.{covers, usable, highest_end, in_kernel, total-init, init-covers}

-- A byte of the bytes from `start` to below `end` is among the 4096 bytes of the frame `g`.
abbrev pub touches : (start end : ℕ) → ℕ → Bool
touches start end g = ltb start end && ltb start ((g + 1) * 4096) && ltb (g * 4096) end

-- A byte of a region of type 1, available memory, is in the frame.
abbrev pub available : List Region → ℕ → Bool
available [] g = false
available (r ∷ rs) g = (r.type == 1 && touches r.base (r.base + r.length) g) || available rs g

-- The frame starts below the end of some region.
abbrev pub below_an_end : List Region → ℕ → Bool
below_an_end [] g = false
below_an_end (r ∷ rs) g = ltb (g * 4096) (r.base + r.length) || below_an_end rs g

-- Every region has a byte and ends at 4 GiB at most.
abbrev pub AllFit : List Region → Type 0
AllFit [] = Unit
AllFit (r ∷ rs) = (0 < r.length) × (r.base + r.length ≤ 2 ^ 32) × AllFit rs

covers-touches :
    (base length g : ℕ)
    → 0 < length
    → base + length ≤ 2 ^ 32
    → covers base length g ≡ touches base (base + length) g
covers-touches base length g some_bytes fits = ground arith

usable-available : (rs : List Region) (g : ℕ) → AllFit rs → usable rs g ≡ available rs g
usable-available [] g fit = refl
usable-available (r ∷ rs) g (some_bytes, fits, fit) = (λ i.
    (r.type == 1 && covers-touches r.base r.length g some_bytes fits i)
    || usable-available rs g fit i)

highest_end-below :
    (rs : List Region) (h g : ℕ)
    → AllFit rs
    → ltb (g * 4096) (highest_end rs h) ≡ (ltb (g * 4096) h || below_an_end rs g)
highest_end-below [] h g fit = ground arith
highest_end-below (r ∷ rs) h g (some_bytes, fits, fit) = ground (
  arith,
  highest_end-below rs
      (if ltb h ((r.base + r.length) % 2 ^ 64) then (r.base + r.length) % 2 ^ 64 else h) g fit,
)

highest_end-le : (rs : List Region) (h : ℕ) → AllFit rs → h ≤ 2 ^ 32 → highest_end rs h ≤ 2 ^ 32
highest_end-le [] h fit small = small
highest_end-le (r ∷ rs) h (some_bytes, fits, fit) small = highest_end-le rs _ fit (ground arith)

-- Where every region has a byte and ends at 4 GiB at most, and the kernel's image has a byte and
-- ends below 4 GiB: after `pmm_init` every byte of the bitmap is a byte, the frames counted are
-- those that start below the end of some region, and a counted frame is taken exactly if it is
-- frame 0, it has a byte of the kernel's image, or it has no byte of a region of type 1.
pub init_lem :
    (rs : List Region) (p : Pmm)
    → IsValid p
    → (kernel_start kernel_end : ℕ) → AllFit rs
    → kernel_start < kernel_end
    → kernel_end < 2 ^ 32
    → IsValid (init rs kernel_start kernel_end p)
      × ((g : ℕ) → ltb g (init rs kernel_start kernel_end p).total_frames ≡ below_an_end rs g)
      × ((g : ℕ)
          → g < (init rs kernel_start kernel_end p).total_frames
          → bitmap_test (init rs kernel_start kernel_end p) g
            ≡ ((0 == g) || touches kernel_start kernel_end g || not (available rs g)))
init_lem rs p valid kernel_start kernel_end fit image small =
    let total = total-init rs p valid kernel_start kernel_end in
    let (bytes, frames) = init-covers rs p valid kernel_start kernel_end in
    let top = highest_end-le rs 0 fit (omega arith) in
    let size : (kernel_end + 2 ^ 32 - kernel_start) % 2 ^ 32 ≡ kernel_end - kernel_start =
      omega (arith, image, small) in
    let end : kernel_start + (kernel_end - kernel_start) ≡ kernel_end = omega (arith, image) in
    (
      bytes,
      λ g.
          ap (ltb g) total
          ∙ (let counted : ltb g (frames_below (highest_end rs 0))
                  ≡ ltb (g * 4096) (highest_end rs 0) =
                ground (arith, top) in
              counted)
          ∙ highest_end-below rs 0 g fit
          ∙ (let start : (ltb (g * 4096) 0 || below_an_end rs g) ≡ below_an_end rs g =
                ground arith in
              start),
      λ g lt.
          let inside : g < frames_below (highest_end rs 0) = omega (arith, lt, total) in
          let kernel : in_kernel kernel_start kernel_end g ≡ touches kernel_start kernel_end g =
            ap (λ n. covers kernel_start n g) size
            ∙ covers-touches kernel_start (kernel_end - kernel_start) g (omega (arith, image))
                (omega (arith, image, small))
            ∙ ap (λ n. touches kernel_start n g) end in
          frames g inside ∙ (λ i. (0 == g) || kernel i || not (usable-available rs g fit i)),
    )
