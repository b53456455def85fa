-- ===== src/Drivers/Vga/Scroll.antt =====
-- What the loops of a scroll come to.
use miyar_os.Base.{
  ℕ, zero, suc, ◌+◌, ◌-◌, ◌*◌, ◌<◌, ◌≤◌, ◌≡◌, ◌≢◌, ◌⊎◌, refl, ◌∙◌, inl, inr, ◌==◌, ltb, Bool-cases,
  arith,
}
use miyar_os.Drivers.Vga.{copy_columns, copy_rows, blank, vga_entry}

copy_columns-kept :
    (n row col : ℕ) (b : ℕ → ℕ) (i : ℕ)
    → (i < (row - 1) * 80 + col) ⊎ ((row - 1) * 80 + col + n ≤ i)
    → copy_columns n row col b i ≡ b i
unfolding copy_columns
copy_columns-kept zero row col b i h = refl
copy_columns-kept (suc n) row col b i (inl h) =
    copy_columns-kept n row (col + 1) _ i (inl (omega (arith, h))) ∙ ground arith
copy_columns-kept (suc n) row col b i (inr h) =
    copy_columns-kept n row (col + 1) _ i (inr (omega (arith, h))) ∙ ground arith

copy_columns-moved :
    (n row col : ℕ) (b : ℕ → ℕ) (i : ℕ)
    → 1 ≤ row
    → col + n ≤ 80
    → (row - 1) * 80 + col ≤ i
    → i < (row - 1) * 80 + col + n
    → copy_columns n row col b i ≡ b (i + 80)
unfolding copy_columns
copy_columns-moved zero row col b i one small lo hi = absurd (omega (arith, lo, hi))
copy_columns-moved (suc n) row col b i one small lo hi =
    let start = (row - 1) * 80 + col in
    elim (Bool-cases (i == start)) [
      | inl here ↦
          let is : i ≡ start = ground arith in
          copy_columns-kept n row (col + 1) _ i (inl (omega (arith, is)))
          ∙ (let from : row * 80 + col ≡ i + 80 = omega (arith, is, one) in ground arith)
      | inr past ↦
          copy_columns-moved n row (col + 1) _ i one (omega (arith, small)) (ground arith)
            (omega (arith, hi))
          ∙ (let apart : start ≢ i + 80 = omega (arith, small, lo, hi) in ground arith)
    ]

copy_rows-kept :
    (n row : ℕ) (b : ℕ → ℕ) (i : ℕ)
    → 1 ≤ row
    → (i < (row - 1) * 80) ⊎ ((row - 1 + n) * 80 ≤ i)
    → copy_rows n row b i ≡ b i
unfolding copy_rows
copy_rows-kept zero row b i one h = refl
copy_rows-kept (suc n) row b i one (inl h) =
    copy_rows-kept n (row + 1) _ i (omega arith) (inl (omega (arith, h)))
    ∙ copy_columns-kept 80 row 0 b i (inl (omega (arith, h)))
copy_rows-kept (suc n) row b i one (inr h) =
    copy_rows-kept n (row + 1) _ i (omega arith) (inr (omega (arith, h, one)))
    ∙ copy_columns-kept 80 row 0 b i (inr (omega (arith, h)))

pub copy_rows-moved :
    (n row : ℕ) (b : ℕ → ℕ) (i : ℕ)
    → 1 ≤ row
    → (row - 1) * 80 ≤ i
    → i < (row - 1 + n) * 80
    → copy_rows n row b i ≡ b (i + 80)
unfolding copy_rows
copy_rows-moved zero row b i one lo hi = absurd (omega (arith, lo, hi))
copy_rows-moved (suc n) row b i one lo hi = elim (Bool-cases (ltb i (row * 80))) [
  | inl first_row ↦
      let below : i < row * 80 = ground arith in
      copy_rows-kept n (row + 1) _ i (omega arith) (inl (omega (arith, below)))
      ∙ copy_columns-moved 80 row 0 b i one (omega arith) (omega (arith, lo))
          (omega (arith, below, one))
  | inr later ↦
      let above : row * 80 ≤ i = ground arith in
      copy_rows-moved n (row + 1) _ i (omega arith) (omega (arith, above)) (omega (arith, hi, one))
      ∙ copy_columns-kept 80 row 0 b (i + 80) (inr (omega (arith, above, one)))
]

pub blank-kept :
    (n from color : ℕ) (b : ℕ → ℕ) (i : ℕ)
    → (i < from) ⊎ (from + n ≤ i)
    → blank n from color b i ≡ b i
unfolding blank
blank-kept zero from color b i h = refl
blank-kept (suc n) from color b i (inl h) =
    blank-kept n (from + 1) color _ i (inl (omega (arith, h))) ∙ ground arith
blank-kept (suc n) from color b i (inr h) =
    blank-kept n (from + 1) color _ i (inr (omega (arith, h))) ∙ ground arith

pub blank-blank :
    (n from color : ℕ) (b : ℕ → ℕ) (i : ℕ)
    → from ≤ i
    → i < from + n
    → blank n from color b i ≡ vga_entry b' ' color
unfolding blank
blank-blank zero from color b i lo hi = absurd (omega (arith, lo, hi))
blank-blank (suc n) from color b i lo hi = elim (Bool-cases (i == from)) [
  | inl here ↦
      let is : i ≡ from = ground arith in
      blank-kept n (from + 1) color _ i (inl (omega (arith, is))) ∙ ground arith
  | inr past ↦ blank-blank n (from + 1) color _ i (ground arith) (omega (arith, hi))
]
