-- ===== src/Fs/File/Read/Bytes.antt =====
-- The bytes of clusters as lists, and buffers that hold them.
use miyar_os.Base.{
  ℕ, zero, suc, ◌+◌, ◌*◌, ◌<◌, ◌≤◌, ◌≡◌, ◌⊎◌, inl, inr, refl, ap, ◌∙◌, true, List, [], ◌∷◌, ◌++◌,
  length, take, drop, ltb, leb, Bool-cases, arith,
}
use miyar_os.Fs.Disk.{Sector}
use miyar_os.Fs.File.{place_sectors, slice}

slice-step : (n from : ℕ) (f : ℕ → ℕ) → slice (suc n) from f ≡ f from ∷ slice n (from + 1) f
unfolding slice
slice-step n from f = refl

pub slice-alike :
    (n from : ℕ) (f g : ℕ → ℕ)
    → ((j : ℕ) → from ≤ j → j < from + n → f j ≡ g j)
    → slice n from f ≡ slice n from g
unfolding slice
slice-alike zero from f g h = refl
slice-alike (suc n) from f g h = λ i.
    h from (omega arith) (omega arith) i
    ∷ slice-alike n (from + 1) f g (λ j lo hi. h j (omega (arith, lo)) (omega (arith, hi))) i

-- A part of a slice that ends in it.
pub take-slice :
    (r k m from : ℕ) (f : ℕ → ℕ) (tail : List ℕ)
    → r + k ≤ m
    → take k (drop r (slice m from f ++ tail)) ≡ slice k (from + r) f
unfolding slice
take-slice zero zero m from f tail h = refl
take-slice zero (suc k) zero from f tail h = absurd (omega (arith, h))
take-slice zero (suc k) (suc m) from f tail h =
    let start : from ≡ from + 0 = omega arith in
    let next : from + 1 + 0 ≡ from + 0 + 1 = omega arith in
    λ i.
      f (start i)
      ∷ (take-slice zero k m (from + 1) f tail (omega (arith, h)) ∙ ap (λ x. slice k x f) next) i
take-slice (suc r) k zero from f tail h = absurd (omega (arith, h))
take-slice (suc r) k (suc m) from f tail h =
    let next : from + 1 + r ≡ from + suc r = omega arith in
    take-slice r k m (from + 1) f tail (omega (arith, h)) ∙ ap (λ x. slice k x f) next

-- A part that goes on after a slice.
pub take-slice_past :
    (r k m n from : ℕ) (f : ℕ → ℕ) (tail : List ℕ)
    → r + k ≡ m
    → take (k + n) (drop r (slice m from f ++ tail)) ≡ slice k (from + r) f ++ take n tail
unfolding slice
take-slice_past zero zero zero n from f tail h =
    let same : 0 + n ≡ n = omega arith in ap (λ x. take x tail) same
take-slice_past zero zero (suc m) n from f tail h = absurd (omega (arith, h))
take-slice_past zero (suc k) zero n from f tail h = absurd (omega (arith, h))
take-slice_past zero (suc k) (suc m) n from f tail h =
    let count : suc k + n ≡ suc (k + n) = omega arith in
    let start : from ≡ from + 0 = omega arith in
    let next : from + 1 + 0 ≡ from + 0 + 1 = omega arith in
    ap (λ x. take x (slice (suc m) from f ++ tail)) count ∙ (λ i.
      f (start i)
      ∷ (take-slice_past zero k m n (from + 1) f tail (omega (arith, h))
            ∙ ap (λ x. slice k x f ++ take n tail) next)
          i)
take-slice_past (suc r) k zero n from f tail h = absurd (omega (arith, h))
take-slice_past (suc r) k (suc m) n from f tail h =
    let next : from + 1 + r ≡ from + suc r = omega arith in
    take-slice_past r k m n (from + 1) f tail (omega (arith, h))
    ∙ ap (λ x. slice k x f ++ take n tail) next

-- What is placed in a buffer does not depend on what the buffer held.
pub place_sectors-alike :
    (i : ℕ) (ss : List Sector) (a b : ℕ → ℕ) (j : ℕ)
    → (a j ≡ b j) ⊎ ((i * 512 ≤ j) × (j < (i + length ss) * 512))
    → place_sectors 512 i ss a j ≡ place_sectors 512 i ss b j
unfolding place_sectors
place_sectors-alike i [] a b j (inl same) = same
place_sectors-alike i [] a b j (inr (lo, hi)) = absurd (omega (arith, lo, hi))
place_sectors-alike i (s ∷ ss) a b j (inl same) =
    place_sectors-alike (i + 1) ss _ _ j (inl (rw same))
place_sectors-alike i (s ∷ ss) a b j (inr (lo, hi)) = elim (Bool-cases (ltb j (i * 512 + 512))) [
  | inl here ↦
      let start : leb (i * 512) j ≡ true = ground arith in
      place_sectors-alike (i + 1) ss _ _ j (inl (rw (start, here)))
  | inr later ↦
      let past : i * 512 + 512 ≤ j = ground arith in
      place_sectors-alike (i + 1) ss _ _ j (inr (omega (arith, past), omega (arith, hi)))
]
