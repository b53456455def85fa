-- ===== src/Memory/Pmm.antt =====
-- kernel/memory/pmm.c, the allocator of physical frames. The static variables of the file are the
-- record `Pmm`. `frame_bitmap` is a function of the byte's index: the array has `bitmap_bytes`
-- bytes, and Pmm/Bounds says when every index is below that.
pub mod Bounds
pub mod Bitmap
pub mod Alloc
pub mod Init
pub mod Frames
mod Tests
use miyar_os.Base.{
  ℕ, zero, suc, ◌+◌, ◌-◌, ◌*◌, ◌/◌, ◌%◌, ◌^◌, min, Bool, true, false, not, List, [], ◌∷◌, ◌==◌, ltb,
  leb, if◌then◌else◌, update,
}
use miyar_os.Base.Bits.{bit_test, bit_set, bit_reset}

abbrev pub page_size : ℕ
page_size = 4096

-- MAX_FRAMES, and the size of `frame_bitmap`.
abbrev pub max_frames : ℕ
max_frames = 4 * 1024 * 1024 * 1024 / page_size

abbrev pub bitmap_bytes : ℕ
bitmap_bytes = max_frames / 8

-- `memory_region_t`
pub record Region : Type 0 where
  pub base : ℕ
  pub length : ℕ
  pub type : ℕ

pub record Pmm : Type 0 where
  pub total_frames : ℕ
  pub total_memory : ℕ
  pub usable_memory : ℕ
  pub bitmap : ℕ → ℕ

pub bitmap_set : Pmm → ℕ → Pmm
bitmap_set p frame = record p {
  bitmap = update p.bitmap (frame / 8) (bit_set (p.bitmap (frame / 8)) (frame % 8));
}

pub bitmap_reset : Pmm → ℕ → Pmm
bitmap_reset p frame = record p {
  bitmap = update p.bitmap (frame / 8) (bit_reset (p.bitmap (frame / 8)) (frame % 8));
}

pub bitmap_test : Pmm → ℕ → Bool
bitmap_test p frame = bit_test (p.bitmap (frame / 8)) (frame % 8)

-- The loop of `bitmap_clear` writes every byte of the array; the bytes past it are no part of it.
pub bitmap_clear : Pmm → Pmm
bitmap_clear p = record p { bitmap = λ i. if ltb i bitmap_bytes then 0 else p.bitmap i }

-- for (; rounds > 0; frame++, rounds--) bitmap_set(frame)
pub set_frames : (rounds frame : ℕ) → Pmm → Pmm
set_frames zero frame p = p
set_frames (suc n) frame p = set_frames n (frame + 1) (bitmap_set p frame)

pub reset_frames : (rounds frame : ℕ) → Pmm → Pmm
reset_frames zero frame p = p
reset_frames (suc n) frame p = reset_frames n (frame + 1) (bitmap_reset p frame)

-- A conversion to `uint32_t` of a quotient of `uint64_t` arithmetic.
abbrev pub first_frame : ℕ → ℕ
first_frame base = base / page_size % 2 ^ 32

abbrev pub last_frame : ℕ → ℕ → ℕ
last_frame base length = (base + length + page_size - 1) % 2 ^ 64 / page_size % 2 ^ 32

pub reserve_region : Pmm → (base length : ℕ) → Pmm
unfolding set_frames
reserve_region p base length =
    let last = min (last_frame base length) p.total_frames in
    set_frames (last - first_frame base) (first_frame base) p

-- The first loop of `pmm_init`: the sums, and the highest end of a region.
pub scan_regions : List Region → Pmm → ℕ → Pmm × ℕ
scan_regions [] p highest = (p, highest)
scan_regions (r ∷ rs) p highest =
    let end = (r.base + r.length) % 2 ^ 64 in
    let usable = if r.type == 1 then (p.usable_memory + r.length) % 2 ^ 64 else p.usable_memory in
    scan_regions rs
      (record p { total_memory = (p.total_memory + r.length) % 2 ^ 64; usable_memory = usable })
      (if ltb highest end then end else highest)

-- The body of the loop that frees the frames of the usable regions.
pub free_region : Region → Pmm → Pmm
unfolding reset_frames
free_region r p =
    let first = first_frame r.base in
    let last = last_frame r.base r.length in
    if r.type == 1 then reset_frames (min last p.total_frames - first) first p else p

pub free_regions : List Region → Pmm → Pmm
free_regions [] p = p
free_regions (r ∷ rs) p = free_regions rs (free_region r p)

-- `total_frames`, from the highest address.
abbrev pub frames_below : ℕ → ℕ
frames_below highest = (highest + page_size - 1) % 2 ^ 64 / page_size % 2 ^ 32

-- The arguments are `memory_regions[0 .. memory_region_count)` and the addresses of
-- `_kernel_start` and `_kernel_end`.
pub init : List Region → (kernel_start kernel_end : ℕ) → Pmm → Pmm
unfolding bitmap_clear scan_regions set_frames free_region free_regions reserve_region
init regions kernel_start kernel_end p =
    let cleared = record (bitmap_clear p) {
      total_memory = 0;
      usable_memory = 0;
      total_frames = 0;
    } in
    let (scanned, highest) = scan_regions regions cleared 0 in
    let sized = record scanned { total_frames = frames_below highest } in
    let taken = set_frames (frames_below highest) 0 sized in
    let freed = free_regions regions taken in
    bitmap_set (reserve_region freed kernel_start ((kernel_end + 2 ^ 32 - kernel_start) % 2 ^ 32)) 0

-- The loop of `pmm_alloc_frame`, `rounds` short of `total_frames`. The first part of the result is
-- the pointer, 0 for none.
pub alloc_from : (rounds frame : ℕ) → Pmm → ℕ × Pmm
alloc_from zero frame p = (0, p)
alloc_from (suc n) frame p =
    let rest = alloc_from n (frame + 1) p in
    if not (bitmap_test p frame) then (frame * page_size % 2 ^ 32, bitmap_set p frame) else rest

pub alloc_frame : Pmm → ℕ × Pmm
unfolding alloc_from
alloc_frame p = alloc_from p.total_frames 0 p

pub free_frame : Pmm → ℕ → Pmm
free_frame p address =
    if address == 0
    then p
    else if not (address % page_size == 0)
    then p
    else if leb p.total_frames (address / page_size)
    then p
    else bitmap_reset p (address / page_size)

pub count_free : (rounds frame : ℕ) → Pmm → ℕ → ℕ
count_free zero frame p free_frames = free_frames
count_free (suc n) frame p free_frames =
    count_free n (frame + 1) p (if not (bitmap_test p frame) then free_frames + 1 else free_frames)

pub free_frames : Pmm → ℕ
unfolding count_free
free_frames p = count_free p.total_frames 0 p 0
