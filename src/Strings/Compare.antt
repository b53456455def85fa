-- ===== src/Strings/Compare.antt =====
-- `strcmp` against the equality of strings.
use miyar_os.Base.{
  ℕ, zero, suc, ◌+◌, ◌<◌, ◌≡◌, ◌∙◌, inl, inr, Bool, true, false, not, ◌&&◌, some, List, [], ◌∷◌,
  length, ◌==◌, leb, Bool-cases, arith,
}
use miyar_os.Fs.Path.{same_string}
use miyar_os.Strings.{Memory, ℤ, pos, negsuc, difference, strcmp}
use miyar_os.Strings.Holds.{Holds}

unfoldable pub is_zero : ℤ → Bool
is_zero (pos n) = n == 0
is_zero (negsuc n) = false

is_zero-difference : (a b : ℕ) → is_zero (difference a b) ≡ (a == b)
unfolding difference is_zero
is_zero-difference a b = elim (Bool-cases (leb b a)) [
  | inl above ↦ rw above (ground arith)
  | inr below ↦ rw below (ground arith)
]

strcmp-stop :
    (fuel : ℕ) (m : Memory) (a b : ℕ)
    → not (m a == 0) && (m a == m b) ≡ false
    → strcmp (suc fuel) m a b ≡ some (difference (m a) (m b))
unfolding strcmp
strcmp-stop fuel m a b stops = rw stops

strcmp-next :
    (fuel : ℕ) (m : Memory) (a b : ℕ)
    → not (m a == 0) && (m a == m b) ≡ true
    → strcmp (suc fuel) m a b ≡ strcmp fuel m (a + 1) (b + 1)
unfolding strcmp
strcmp-next fuel m a b goes = rw goes

-- On two strings in the memory, `strcmp` returns within as many rounds as the first has bytes, NUL
-- included, and what it returns is 0 exactly where the strings are equal.
pub strcmp-same_string :
    (fuel : ℕ) (m : Memory) (a b : ℕ) (s t : List ℕ)
    → Holds m a s
    → Holds m b t
    → length s < fuel
    → (d : ℤ) × (strcmp fuel m a b ≡ some d) × (is_zero d ≡ same_string s t)
unfolding Holds same_string
strcmp-same_string zero m a b s t hs ht enough = absurd (omega (arith, enough))
strcmp-same_string (suc fuel) m a b [] [] hs ht enough =
    let stops : not (m a == 0) && (m a == m b) ≡ false = ground arith in
    let same : m a == m b ≡ true = ground arith in
    (difference (m a) (m b), strcmp-stop fuel m a b stops, is_zero-difference (m a) (m b) ∙ same)
strcmp-same_string (suc fuel) m a b [] (d ∷ t) hs (hd, nd, ht) enough =
    let stops : not (m a == 0) && (m a == m b) ≡ false = ground arith in
    let other : m a == m b ≡ false = ground arith in
    (difference (m a) (m b), strcmp-stop fuel m a b stops, is_zero-difference (m a) (m b) ∙ other)
strcmp-same_string (suc fuel) m a b (c ∷ s) [] (hc, nc, hs) ht enough =
    let stops : not (m a == 0) && (m a == m b) ≡ false = ground arith in
    let other : m a == m b ≡ false = ground arith in
    (difference (m a) (m b), strcmp-stop fuel m a b stops, is_zero-difference (m a) (m b) ∙ other)
strcmp-same_string (suc fuel) m a b (c ∷ s) (d ∷ t) (hc, nc, hs) (hd, nd, ht) enough =
    elim (Bool-cases (c == d)) [
      | inl alike ↦
          let goes : not (m a == 0) && (m a == m b) ≡ true = ground arith in
          let (r, run, is) =
            strcmp-same_string fuel m (a + 1) (b + 1) s t hs ht (omega (arith, enough)) in
          (r, strcmp-next fuel m a b goes ∙ run, is ∙ (let both = alike in rw both))
      | inr apart ↦
          let stops : not (m a == 0) && (m a == m b) ≡ false = ground arith in
          let other : m a == m b ≡ false = ground arith in
          (
            difference (m a) (m b),
            strcmp-stop fuel m a b stops,
            is_zero-difference (m a) (m b) ∙ other ∙ (let both = apart in rw both),
          )
    ]
