-- ===== src/Memory/Pmm/Alloc.antt =====
-- `pmm_alloc_frame`, `pmm_free_frame` and `pmm_free_frames`.
use miyar_os.Base.{
  ℕ, zero, suc, ◌+◌, ◌*◌, ◌/◌, ◌%◌, ◌^◌, ◌≤◌, ◌<◌, ◌≡◌, ◌≢◌, refl, ap, true, false, arith, ◌==◌,
  inl, inr, Bool-cases,
}
use native.Mathlib.Nat.{zero-add}
use miyar_os.Memory.Pmm.{
  Pmm, page_size, max_frames, bitmap_set, bitmap_reset, bitmap_test, alloc_from, alloc_frame,
  free_frame, count_free, free_frames,
}
use miyar_os.Memory.Pmm.Bitmap.{
  IsValid, bitmap_set-IsValid, bitmap_test-bitmap_set, bitmap_test-bitmap_reset,
}

-- `frame` is the lowest free frame of those from `first` on and below `bound`.
pub record IsLowest (p : Pmm) (first bound frame : ℕ) : Type 0 where
  pub from : first ≤ frame
  pub below : frame < bound
  pub free : bitmap_test p frame ≡ false
  pub lower : (g : ℕ) → first ≤ g → g < frame → bitmap_test p g ≡ true

-- The two outcomes of a search.
pub data Allocation (p : Pmm) (first bound : ℕ) (out : ℕ × Pmm) : Type 0 where
  full :
      ((g : ℕ) → first ≤ g → g < bound → bitmap_test p g ≡ true)
      → out ≡ (0, p)
      → Allocation p first bound out
  found :
      (frame : ℕ)
      → IsLowest p first bound frame
      → out ≡ (frame * page_size % 2 ^ 32, bitmap_set p frame)
      → Allocation p first bound out

alloc_from-step :
    (n f : ℕ) (p : Pmm)
    → bitmap_test p f ≡ true
    → Allocation p (f + 1) (f + 1 + n) (alloc_from n (f + 1) p)
    → Allocation p f (f + suc n) (alloc_from (suc n) f p)
unfolding alloc_from
alloc_from-step n f p taken (full all e) = full (λ g a b. ground (arith, all g)) (rw taken e)
alloc_from-step n f p taken (found frame low e) =
    found frame
      (record {
        from = omega arith;
        below = omega arith;
        free = low.free;
        lower = λ g a b. ground (arith, low.lower g);
      })
      (rw taken e)

alloc_from-Allocation : (n f : ℕ) (p : Pmm) → Allocation p f (f + n) (alloc_from n f p)
unfolding alloc_from
alloc_from-Allocation zero f p = full (λ g a b. absurd (omega arith)) refl
alloc_from-Allocation (suc n) f p = elim (Bool-cases (bitmap_test p f)) [
  | inl taken ↦ alloc_from-step n f p taken (alloc_from-Allocation n (f + 1) p)
  | inr free ↦
      found f
        (record {
          from = omega arith;
          below = omega arith;
          free = free;
          lower = λ g a b. absurd (omega arith);
        })
        (rw free)
]

-- `pmm_alloc_frame` either finds the lowest free frame, returns its address and takes that frame
-- alone, or every frame is taken, and it returns 0 and changes nothing.
pub alloc_frame-Allocation : (p : Pmm) → Allocation p 0 p.total_frames (alloc_frame p)
unfolding alloc_frame
alloc_frame-Allocation p = rw zero-add at (alloc_from-Allocation p.total_frames 0 p)

-- The address of a frame below 4 GiB does not wrap, and `pmm_free_frame` finds its frame again.
free_frame-address :
    (q : Pmm) (f : ℕ)
    → f ≢ 0
    → f < q.total_frames
    → q.total_frames ≤ max_frames
    → free_frame q (f * page_size % 2 ^ 32) ≡ bitmap_reset q f
unfolding free_frame
free_frame-address q f ne lt small =
    let exact : f * page_size % 2 ^ 32 ≡ f * page_size = omega arith in
    let back : f * page_size / page_size ≡ f = omega arith in rw (exact, back) (ground arith)

total-bitmap_set : (p : Pmm) (f : ℕ) → (bitmap_set p f).total_frames ≡ p.total_frames
unfolding bitmap_set
total-bitmap_set p f = refl

restored :
    {p : Pmm} {out : ℕ × Pmm}
    → Allocation p 0 p.total_frames out
    → IsValid p
    → p.total_frames ≤ max_frames
    → out.0 ≢ 0
    → (g : ℕ) → bitmap_test (free_frame out.1 out.0) g ≡ bitmap_test p g
restored (full all e) v small ne g = absurd (ne (ap (λ t. t.0) e))
restored {p} (found f low e) v small ne g =
    let ne' : f * page_size % 2 ^ 32 ≢ 0 = rw (e) at ne in
    let nonzero : f ≢ 0 = omega arith in
    rw
      (
        e,
        free_frame-address (bitmap_set p f) f nonzero
            (omega (arith, low.below, total-bitmap_set p f)) (omega (arith, total-bitmap_set p f)),
      )
      (ground (
        arith,
        bitmap_test-bitmap_reset f g (bitmap_set-IsValid f v),
        bitmap_test-bitmap_set f g v,
        low.free,
      ))

-- Freeing the address that `pmm_alloc_frame` has just returned gives back the bitmap from before,
-- if memory is at most 4 GiB and the address is not 0.
pub free_frame-alloc_frame :
    {p : Pmm}
    → IsValid p
    → p.total_frames ≤ max_frames
    → (alloc_frame p).0 ≢ 0
    → (g : ℕ) → bitmap_test (free_frame (alloc_frame p).1 (alloc_frame p).0) g ≡ bitmap_test p g
free_frame-alloc_frame {p} v small ne g = restored (alloc_frame-Allocation p) v small ne g

count_free-same :
    (n f acc : ℕ) (p q : Pmm)
    → ((g : ℕ) → f ≤ g → bitmap_test p g ≡ bitmap_test q g)
    → count_free n f p acc ≡ count_free n f q acc
unfolding count_free
count_free-same zero f acc p q h = refl
count_free-same (suc n) f acc p q h =
    rw (h f (omega arith)) (count_free-same n (f + 1) _ p q (λ g b. h g (omega arith)))

count_free-suc : (n f acc : ℕ) (p : Pmm) → count_free n f p (acc + 1) ≡ count_free n f p acc + 1
unfolding count_free
count_free-suc zero f acc p = refl
count_free-suc (suc n) f acc p =
    ground (arith, count_free-suc n (f + 1) acc p, count_free-suc n (f + 1) (acc + 1) p)

-- Taking one free frame of the range lowers the count by one.
count_free-bitmap_set :
    (n f g acc : ℕ) {p : Pmm}
    → IsValid p
    → f ≤ g
    → g < f + n
    → bitmap_test p g ≡ false
    → count_free n f (bitmap_set p g) acc + 1 ≡ count_free n f p acc
unfolding count_free
count_free-bitmap_set zero f g acc v a b free = absurd (omega arith)
count_free-bitmap_set (suc n) f g acc {p} v a b free = elim (Bool-cases (f == g)) [
  | inl here ↦
      let e : f ≡ g = ground arith in
      ground (
        arith,
        bitmap_test-bitmap_set g f v,
        count_free-suc n (f + 1) acc p,
        count_free-same n (f + 1) acc (bitmap_set p g) p
            (λ j b. ground (arith, bitmap_test-bitmap_set g j v)),
      )
  | inr later ↦ ground (
    arith,
    bitmap_test-bitmap_set g f v,
    count_free-bitmap_set n (f + 1) g acc v,
    count_free-bitmap_set n (f + 1) g (acc + 1) v,
  )
]

counted :
    {p : Pmm} {out : ℕ × Pmm}
    → Allocation p 0 p.total_frames out
    → IsValid p
    → out.0 ≢ 0
    → free_frames out.1 + 1 ≡ free_frames p
unfolding free_frames bitmap_set
counted (full all e) v ne = absurd (ne (ap (λ t. t.0) e))
counted {p} (found f low e) v ne =
    rw (e, total-bitmap_set p f)
      (count_free-bitmap_set p.total_frames 0 f 0 v low.from (omega (arith, low.below)) low.free)

-- An allocation that returns an address lowers `pmm_free_frames` by one.
pub free_frames-alloc_frame :
    {p : Pmm}
    → IsValid p
    → (alloc_frame p).0 ≢ 0
    → free_frames (alloc_frame p).1 + 1 ≡ free_frames p
free_frames-alloc_frame {p} v ne = counted (alloc_frame-Allocation p) v ne
