-- ===== src/Strings/Copy.antt =====
-- `strcpy` and `strcat` on strings that do not overlap.
use miyar_os.Base.{
  ℕ, zero, suc, ◌+◌, ◌<◌, ◌≡◌, ◌≢◌, ◌⊎◌, inl, inr, refl, ap, ◌∙◌, true, false, some, List, [], ◌∷◌,
  ◌++◌, length, length-append, ◌==◌, update, Bool-cases, arith,
}
use miyar_os.Strings.{Memory, strcpy, string_end, append_loop, strcat}
use miyar_os.Strings.Holds.{Holds, Holds-alike, Holds-append}

-- Two stretches of the memory, of `k` and `n` bytes, with no byte in common.
abbrev pub IsApart : (p k q n : ℕ) → Type 0
IsApart p k q n = (p + k < q + 1) ⊎ (q + n < p + 1)

-- The memory after a string has been written at `q`: it is there, and no other byte has changed.
pub record Written (m m' : Memory) (q : ℕ) (t : List ℕ) : Type 0 where
  pub holds : Holds m' q t
  pub others : (k : ℕ) → (k < q) ⊎ (q + length t < k) → m' k ≡ m k

update-here : (m : Memory) (q x : ℕ) → update m q x q ≡ x
update-here m q x = let same : q == q ≡ true = ground arith in rw same

update-other : (m : Memory) (q x k : ℕ) → k ≢ q → update m q x k ≡ m k
update-other m q x k ne = let apart : q == k ≡ false = ground arith in rw apart

append_loop-next :
    (fuel : ℕ) (m : Memory) (q p : ℕ)
    → m p ≢ 0
    → append_loop (suc fuel) m q p ≡ append_loop fuel (update m q (m p)) (q + 1) (p + 1)
unfolding append_loop
append_loop-next fuel m q p byte = let goes : m p == 0 ≡ false = ground arith in rw goes

append_loop-Written :
    (fuel : ℕ) (m : Memory) (q p : ℕ) (t : List ℕ)
    → Holds m p t
    → IsApart q (length t + 1) p (length t + 1)
    → length t < fuel
    → (m' : Memory) × (append_loop fuel m q p ≡ some m') × Written m m' q t
unfolding Holds append_loop
append_loop-Written zero m q p t h apart enough = absurd (omega (arith, enough))
append_loop-Written (suc fuel) m q p [] h apart enough =
    let ended : m p == 0 ≡ true = ground arith in
    (
      update m q 0,
      rw (append_loop, ended),
      record {
        holds = update-here m q 0;
        others = λ k outside. update-other m q 0 k (ground arith);
      },
    )
append_loop-Written (suc fuel) m q p (c ∷ cs) (head, byte, rest) apart enough =
    let n = update m q (m p) in
    let kept : Holds n (p + 1) cs =
      Holds-alike m n (p + 1) cs (λ k lo hi. update-other m q (m p) k (ground arith)) rest in
    let (m', run, w) =
      append_loop-Written fuel n (q + 1) (p + 1) cs kept (ground arith) (omega (arith, enough)) in
    (
      m',
      append_loop-next fuel m q p (ground arith) ∙ run,
      record {
        holds = (w.others q (inl (omega arith)) ∙ update-here m q (m p) ∙ head, byte, w.holds);
        others = λ k outside. w.others k (ground arith) ∙ update-other m q (m p) k (ground arith);
      },
    )

strcpy-append_loop : (fuel : ℕ) (m : Memory) (q p : ℕ) → strcpy fuel m q p ≡ append_loop fuel m q p
unfolding strcpy append_loop
strcpy-append_loop zero m q p = refl
strcpy-append_loop (suc fuel) m q p = elim (Bool-cases (m p == 0)) [
  | inl ended ↦ let last : m p ≡ 0 = ground arith in rw ended (ap (λ x. some (update m q x)) last)
  | inr goes ↦ rw goes (strcpy-append_loop fuel (update m q (m p)) (q + 1) (p + 1))
]

-- Where a string does not overlap the place that it is copied to, `strcpy` returns within as many
-- rounds as the string has bytes, NUL included; the string is then at that place and no other byte
-- of the memory has changed.
pub strcpy-Written :
    (fuel : ℕ) (m : Memory) (dest src : ℕ) (t : List ℕ)
    → Holds m src t
    → IsApart dest (length t + 1) src (length t + 1)
    → length t < fuel
    → (m' : Memory) × (strcpy fuel m dest src ≡ some m') × Written m m' dest t
strcpy-Written fuel m dest src t h apart enough =
    let (m', run, w) = append_loop-Written fuel m dest src t h apart enough in
    (m', strcpy-append_loop fuel m dest src ∙ run, w)

string_end-length :
    (fuel : ℕ) (m : Memory) (p : ℕ) (s : List ℕ)
    → Holds m p s
    → length s < fuel
    → string_end fuel m p ≡ some (p + length s)
unfolding Holds string_end
string_end-length zero m p s h enough = absurd (omega (arith, enough))
string_end-length (suc fuel) m p [] h enough =
    let ended : m p == 0 ≡ true = ground arith in
    let here : p ≡ p + 0 = omega arith in rw ended (ap some here)
string_end-length (suc fuel) m p (c ∷ cs) (head, byte, rest) enough =
    let goes : m p == 0 ≡ false = ground arith in
    let there : p + 1 + length cs ≡ p + suc (length cs) = omega arith in
    rw goes (string_end-length fuel m (p + 1) cs rest (omega (arith, enough)) ∙ ap some there)

-- Where the string to append does not overlap the bytes from the end of the destination's string on
-- that are written, `strcat` returns with enough fuel for both strings; the destination then has
-- the two strings one after the other, and no byte outside of it has changed.
pub strcat-Written :
    (fuel : ℕ) (m : Memory) (destination source : ℕ) (s t : List ℕ)
    → Holds m destination s
    → Holds m source t
    → IsApart (destination + length s) (length t + 1) source (length t + 1)
    → length s + length t < fuel
    → (m' : Memory) × (strcat fuel m destination source ≡ some m')
      × Written m m' destination (s ++ t)
unfolding strcat
strcat-Written fuel m d p s t hs ht apart enough =
    let (m', run, w) =
      append_loop-Written fuel m (d + length s) p t ht apart (omega (arith, enough)) in
    let ends = string_end-length fuel m d s hs (omega (arith, enough)) in
    let both = length-append s t in
    let step : strcat fuel m d p ≡ append_loop fuel m (d + length s) p = rw (strcat, ends) in
    (
      m',
      step ∙ run,
      record {
        holds = Holds-append m m' d s t (λ k below. w.others k (inl below)) hs w.holds;
        others = λ k outside. w.others k (ground arith);
      },
    )
