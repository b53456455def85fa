-- ===== src/Shell/Line/Keys.antt =====
-- Lines as lists of bytes: slices of an array, and what the keys make of them.
use miyar_os.Base.{
  ℕ, zero, suc, ◌+◌, ◌≤◌, ◌≡◌, refl, ap, ◌∙◌, Bool, true, false, List, [], ◌∷◌, ◌++◌, length, ◌==◌,
  ltb, if◌then◌else◌, update, arith,
}
use miyar_os.Fs.File.{slice}

-- A list without its last element.
unfoldable pub drop_last : List ℕ → List ℕ
drop_last [] = []
drop_last (c ∷ []) = []
drop_last (c ∷ d ∷ ds) = c ∷ drop_last (d ∷ ds)

pub drop_last-snoc : (l : List ℕ) (c : ℕ) → drop_last (l ++ c ∷ []) ≡ l
unfolding drop_last
drop_last-snoc [] c = refl
drop_last-snoc (x ∷ []) c = refl
drop_last-snoc (x ∷ y ∷ ys) c = ap (λ (l : List ℕ). x ∷ l) (drop_last-snoc (y ∷ ys) c)

slice-suc : (n from : ℕ) (b : ℕ → ℕ) → slice (suc n) from b ≡ slice n from b ++ (b (from + n) ∷ [])
unfolding slice
slice-suc zero from b = let same : from + 0 ≡ from = omega arith in rw (same) refl
slice-suc (suc n) from b =
    let same : from + 1 + n ≡ from + suc n = omega arith in
    ap (λ (l : List ℕ). b from ∷ l)
      (slice-suc n (from + 1) b ∙ ap (λ i. slice n (from + 1) b ++ (b i ∷ [])) same)

pub slice-last : (n : ℕ) (b : ℕ → ℕ) → slice (suc n) 0 b ≡ slice n 0 b ++ (b n ∷ [])
slice-last n b =
    let same : 0 + n ≡ n = omega arith in slice-suc n 0 b ∙ ap (λ i. slice n 0 b ++ (b i ∷ [])) same

pub slice-update :
    (n from i c : ℕ) (b : ℕ → ℕ) → from + n ≤ i → slice n from (update b i c) ≡ slice n from b
unfolding slice
slice-update zero from i c b past = refl
slice-update (suc n) from i c b past =
    let here : update b i c from ≡ b from = ground arith in
    rw (here, slice-update n (from + 1) i c b (omega (arith, past))) refl

pub length-slice : (n from : ℕ) (b : ℕ → ℕ) → length (slice n from b) ≡ n
unfolding slice
length-slice zero from b = refl
length-slice (suc n) from b = rw (length-slice n (from + 1) b) refl

-- What a key does to a line that holds 127 bytes at most: a backspace takes the last byte, and 0
-- and what comes when the line is full are lost.
unfoldable pub type_key : (c : ℕ) → List ℕ → List ℕ
type_key c line =
    if c == 0
    then line
    else if c == 8
    then drop_last line
    else if ltb (length line) 127
    then line ++ (c ∷ [])
    else line

unfoldable pub type_keys : List ℕ → (line : List ℕ) → List ℕ
type_keys [] line = line
type_keys (c ∷ cs) line = type_keys cs (type_key c line)

unfoldable pub has_newline : List ℕ → Bool
has_newline [] = false
has_newline (c ∷ cs) = if c == 10 then true else has_newline cs
