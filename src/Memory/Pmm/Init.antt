-- ===== src/Memory/Pmm/Init.antt =====
-- `pmm_init`: which frames are free after it, in terms of its own first and last frame of a region.
use miyar_os.Base.{
  ℕ, ◌+◌, ◌-◌, ◌%◌, ◌^◌, ◌<◌, ◌≡◌, refl, ap, Bool, false, not, ◌&&◌, ◌||◌, arith, ◌==◌, min, List,
  [], ◌∷◌, ltb, leb, if◌then◌else◌, inl, inr, Bool-cases, ◌∙◌,
}
use miyar_os.Memory.Pmm.{
  Pmm, Region, bitmap_set, bitmap_clear, bitmap_test, set_frames, first_frame, last_frame,
  reserve_region, scan_regions, free_region, free_regions, frames_below, init,
}
use miyar_os.Memory.Pmm.Bitmap.{
  IsValid, bitmap_set-IsValid, set_frames-IsValid, reset_frames-IsValid, bitmap_test-bitmap_set,
  bitmap_test-set_frames, bitmap_test-reset_frames, total-set_frames, total-reset_frames,
}

-- The frame is between the first and the last frame of the region.
abbrev pub covers : (base length : ℕ) → ℕ → Bool
covers base length g = leb (first_frame base) g && ltb g (last_frame base length)

-- The same for a usable region.
abbrev pub usable : List Region → ℕ → Bool
usable [] g = false
usable (r ∷ rs) g = (r.type == 1 && covers r.base r.length g) || usable rs g

-- The highest end of a region, from a start value.
abbrev pub highest_end : List Region → ℕ → ℕ
highest_end [] h = h
highest_end (r ∷ rs) h =
    let end = (r.base + r.length) % 2 ^ 64 in highest_end rs (if ltb h end then end else h)

-- The same for the kernel's image.
abbrev pub in_kernel : (kernel_start kernel_end : ℕ) → ℕ → Bool
in_kernel kernel_start kernel_end g =
    covers kernel_start ((kernel_end + 2 ^ 32 - kernel_start) % 2 ^ 32) g

pub bitmap_clear-IsValid : {p : Pmm} → IsValid p → IsValid (bitmap_clear p)
unfolding bitmap_clear
bitmap_clear-IsValid v = record { bytes = λ i. ground (arith, v.bytes i) }

scan-bitmap : (rs : List Region) (p : Pmm) (h : ℕ) → (scan_regions rs p h).0.bitmap ≡ p.bitmap
unfolding scan_regions
scan-bitmap [] p h = refl
scan-bitmap (r ∷ rs) p h = scan-bitmap rs _ _

scan-highest : (rs : List Region) (p : Pmm) (h : ℕ) → (scan_regions rs p h).1 ≡ highest_end rs h
unfolding scan_regions
scan-highest [] p h = refl
scan-highest (r ∷ rs) p h = scan-highest rs _ _

module _ (r : Region) where
  abbrev first : ℕ
  first = first_frame r.base

  abbrev rounds : Pmm → ℕ
  rounds p = min (last_frame r.base r.length) p.total_frames - first

  free_region-IsValid : {p : Pmm} → IsValid p → IsValid (free_region r p)
  unfolding free_region
  free_region-IsValid {p} v = elim (Bool-cases (r.type == 1)) [
    | inl one ↦ rw one (reset_frames-IsValid (rounds p) first v)
    | inr other ↦ rw other v
  ]

  total-free_region : (p : Pmm) → (free_region r p).total_frames ≡ p.total_frames
  unfolding free_region
  total-free_region p = ground (arith, total-reset_frames (rounds p) first p)

  bitmap_test-free_region :
      {p : Pmm} (g : ℕ)
      → IsValid p
      → g < p.total_frames
      → bitmap_test (free_region r p) g
        ≡ (not (r.type == 1 && covers r.base r.length g) && bitmap_test p g)
  unfolding free_region
  bitmap_test-free_region {p} g v lt = ground (arith, bitmap_test-reset_frames (rounds p) first g v)

free_regions-IsValid : (rs : List Region) {p : Pmm} → IsValid p → IsValid (free_regions rs p)
unfolding free_regions
free_regions-IsValid [] v = v
free_regions-IsValid (r ∷ rs) v = free_regions-IsValid rs (free_region-IsValid r v)

total-free_regions :
    (rs : List Region) (p : Pmm) → (free_regions rs p).total_frames ≡ p.total_frames
unfolding free_regions
total-free_regions [] p = refl
total-free_regions (r ∷ rs) p = total-free_regions rs (free_region r p) ∙ total-free_region r p

-- The loop over the regions frees the frames that a usable region touches, and no other.
bitmap_test-free_regions :
    (rs : List Region) {p : Pmm} (g : ℕ)
    → IsValid p
    → g < p.total_frames
    → bitmap_test (free_regions rs p) g ≡ (not (usable rs g) && bitmap_test p g)
unfolding free_regions
bitmap_test-free_regions [] g v lt = refl
bitmap_test-free_regions (r ∷ rs) {p} g v lt = ground (
  arith,
  bitmap_test-free_regions rs g (free_region-IsValid r v),
  total-free_region r p,
  bitmap_test-free_region r g v,
)

module _ (b l : ℕ) {p : Pmm} (v : IsValid p) where
  abbrev last : ℕ
  last = min (last_frame b l) p.total_frames

  reserve_region-IsValid : IsValid (reserve_region p b l)
  unfolding reserve_region
  reserve_region-IsValid = set_frames-IsValid (last - first_frame b) (first_frame b) v

  bitmap_test-reserve_region :
      (g : ℕ)
      → g < p.total_frames
      → bitmap_test (reserve_region p b l) g ≡ (covers b l g || bitmap_test p g)
  unfolding reserve_region
  bitmap_test-reserve_region g lt =
      ground (arith, bitmap_test-set_frames (last - first_frame b) (first_frame b) g v)

  total-reserve_region : (reserve_region p b l).total_frames ≡ p.total_frames
  unfolding reserve_region
  total-reserve_region = total-set_frames (last - first_frame b) (first_frame b) p

-- The stages of `pmm_init`.
module _ (rs : List Region) (p : Pmm) (valid : IsValid p) where
  abbrev cleared : Pmm
  cleared = record (bitmap_clear p) { total_memory = 0; usable_memory = 0; total_frames = 0 }

  abbrev pub total : ℕ
  total = frames_below (highest_end rs 0)

  abbrev sized : Pmm
  sized = record (scan_regions rs cleared 0).0 {
    total_frames = frames_below (scan_regions rs cleared 0).1;
  }

  abbrev taken : Pmm
  taken = set_frames sized.total_frames 0 sized

  abbrev freed : Pmm
  freed = free_regions rs taken

  sized-IsValid : IsValid sized
  sized-IsValid = record {
    bytes = λ i. rw (scan-bitmap rs cleared 0) ((bitmap_clear-IsValid valid).bytes i);
  }

  freed-IsValid : IsValid freed
  freed-IsValid = free_regions-IsValid rs (set_frames-IsValid sized.total_frames 0 sized-IsValid)

  total-sized : sized.total_frames ≡ total
  total-sized = ap (λ h. frames_below h) (scan-highest rs cleared 0)

  total-taken : taken.total_frames ≡ total
  total-taken = total-set_frames sized.total_frames 0 sized ∙ total-sized

  total-freed : freed.total_frames ≡ total
  total-freed = total-free_regions rs taken ∙ total-taken

  bitmap_test-freed : (g : ℕ) → g < total → bitmap_test freed g ≡ not (usable rs g)
  bitmap_test-freed g lt = ground (
    arith,
    bitmap_test-free_regions rs {p = taken} g
        (set_frames-IsValid sized.total_frames 0 sized-IsValid),
    bitmap_test-set_frames sized.total_frames 0 g sized-IsValid,
    total-taken,
    total-sized,
  )

  module _ (kernel_start kernel_end : ℕ) where
    abbrev size : ℕ
    size = (kernel_end + 2 ^ 32 - kernel_start) % 2 ^ 32

    pub total-init : (init rs kernel_start kernel_end p).total_frames ≡ total
    unfolding init bitmap_set
    total-init = total-reserve_region kernel_start size freed-IsValid ∙ total-freed

    pub init-covers :
        IsValid (init rs kernel_start kernel_end p)
        × ((g : ℕ)
            → g < total
            → bitmap_test (init rs kernel_start kernel_end p) g
              ≡ ((0 == g) || in_kernel kernel_start kernel_end g || not (usable rs g)))
    unfolding init
    init-covers = (
      bitmap_set-IsValid 0 (reserve_region-IsValid kernel_start size freed-IsValid),
      λ g lt. ground (
        arith,
        bitmap_test-bitmap_set 0 g (reserve_region-IsValid kernel_start size freed-IsValid),
        bitmap_test-reserve_region kernel_start size freed-IsValid g,
        total-freed,
        bitmap_test-freed g,
      ),
    )
