-- ===== src/Memory/Pmm/Bitmap.antt =====
-- The bit operations of pmm.c, one frame at a time and over a range of frames.
use miyar_os.Base.{
  ℕ, zero, suc, ◌+◌, ◌/◌, ◌%◌, ◌<◌, ◌≡◌, refl, Bool, not, ◌&&◌, ◌||◌, arith, ◌==◌, ltb, leb,
}
use miyar_os.Base.Bits.{bit_test-bit_set, bit_test-bit_reset, bit_set-lt, bit_reset-lt}
use miyar_os.Memory.Pmm.{Pmm, bitmap_set, bitmap_reset, bitmap_test, set_frames, reset_frames}

-- Every element of the bitmap is a byte.
pub record IsValid (p : Pmm) : Type 0 where
  pub bytes : (i : ℕ) → p.bitmap i < 256

pub bitmap_set-IsValid : {p : Pmm} (f : ℕ) → IsValid p → IsValid (bitmap_set p f)
unfolding bitmap_set
bitmap_set-IsValid {p} f v = record {
  bytes = λ i.
      ground
        (arith, v.bytes i, bit_set-lt (p.bitmap (f / 8)) (f % 8) (v.bytes (f / 8)) (omega arith));
}

pub bitmap_reset-IsValid : {p : Pmm} (f : ℕ) → IsValid p → IsValid (bitmap_reset p f)
unfolding bitmap_reset
bitmap_reset-IsValid {p} f v = record {
  bytes = λ i.
      ground
        (arith, v.bytes i, bit_reset-lt (p.bitmap (f / 8)) (f % 8) (v.bytes (f / 8)) (omega arith));
}

-- Setting the bit of one frame takes that frame and no other.
pub bitmap_test-bitmap_set :
    {p : Pmm} (f g : ℕ) → IsValid p → bitmap_test (bitmap_set p f) g ≡ ((f == g) || bitmap_test p g)
unfolding bitmap_set bitmap_test
bitmap_test-bitmap_set {p} f g v = ground (
  arith,
  bit_test-bit_set (p.bitmap (f / 8)) (f % 8) (v.bytes (f / 8)) (omega arith) (g % 8) (omega arith),
)

pub bitmap_test-bitmap_reset :
    {p : Pmm} (f g : ℕ)
    → IsValid p
    → bitmap_test (bitmap_reset p f) g ≡ (not (f == g) && bitmap_test p g)
unfolding bitmap_reset bitmap_test
bitmap_test-bitmap_reset {p} f g v = ground (
  arith,
  bit_test-bit_reset (p.bitmap (f / 8)) (f % 8) (v.bytes (f / 8)) (omega arith) (g % 8)
      (omega arith),
)

-- The frames `first`, ..., `first + n - 1`.
abbrev pub in_range : (first n g : ℕ) → Bool
in_range first n g = leb first g && ltb g (first + n)

pub set_frames-IsValid : (n f : ℕ) {p : Pmm} → IsValid p → IsValid (set_frames n f p)
unfolding set_frames
set_frames-IsValid zero f v = v
set_frames-IsValid (suc n) f v = set_frames-IsValid n (f + 1) (bitmap_set-IsValid f v)

pub reset_frames-IsValid : (n f : ℕ) {p : Pmm} → IsValid p → IsValid (reset_frames n f p)
unfolding reset_frames
reset_frames-IsValid zero f v = v
reset_frames-IsValid (suc n) f v = reset_frames-IsValid n (f + 1) (bitmap_reset-IsValid f v)

pub bitmap_test-set_frames :
    (n f g : ℕ) {p : Pmm}
    → IsValid p
    → bitmap_test (set_frames n f p) g ≡ (in_range f n g || bitmap_test p g)
unfolding set_frames
bitmap_test-set_frames zero f g v = ground arith
bitmap_test-set_frames (suc n) f g {p} v = ground (
  arith,
  bitmap_test-set_frames n (f + 1) g (bitmap_set-IsValid f v),
  bitmap_test-bitmap_set f g v,
)

pub bitmap_test-reset_frames :
    (n f g : ℕ) {p : Pmm}
    → IsValid p
    → bitmap_test (reset_frames n f p) g ≡ (not (in_range f n g) && bitmap_test p g)
unfolding reset_frames
bitmap_test-reset_frames zero f g v = ground arith
bitmap_test-reset_frames (suc n) f g {p} v = ground (
  arith,
  bitmap_test-reset_frames n (f + 1) g (bitmap_reset-IsValid f v),
  bitmap_test-bitmap_reset f g v,
)

pub total-set_frames : (n f : ℕ) (p : Pmm) → (set_frames n f p).total_frames ≡ p.total_frames
unfolding set_frames bitmap_set
total-set_frames zero f p = refl
total-set_frames (suc n) f p = total-set_frames n (f + 1) (bitmap_set p f)

pub total-reset_frames : (n f : ℕ) (p : Pmm) → (reset_frames n f p).total_frames ≡ p.total_frames
unfolding reset_frames bitmap_reset
total-reset_frames zero f p = refl
total-reset_frames (suc n) f p = total-reset_frames n (f + 1) (bitmap_reset p f)
