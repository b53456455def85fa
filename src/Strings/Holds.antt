-- ===== src/Strings/Holds.antt =====
-- Strings in the memory: bytes that are not NUL, and a NUL after them.
use mathlib.Core.Path.{subst}
use miyar_os.Base.{ℕ, suc, ◌+◌, ◌<◌, ◌≡◌, ◌≢◌, ◌∙◌, List, [], ◌∷◌, ◌++◌, length, arith}
use miyar_os.Strings.{Memory}

unfoldable pub Holds : Memory → (p : ℕ) → List ℕ → Type 0
Holds m p [] = m p ≡ 0
Holds m p (c ∷ cs) = (m p ≡ c) × (c ≢ 0) × Holds m (p + 1) cs

-- A memory that has the same bytes there holds the same string.
pub Holds-alike :
    (m m' : Memory) (p : ℕ) (s : List ℕ)
    → ((k : ℕ) → p < k + 1 → k < p + length s + 1 → m' k ≡ m k)
    → Holds m p s
    → Holds m' p s
unfolding Holds
Holds-alike m m' p [] same h = same p (omega arith) (omega arith) ∙ h
Holds-alike m m' p (c ∷ cs) same (head, byte, rest) = (
  same p (omega arith) (omega arith) ∙ head,
  byte,
  Holds-alike m m' (p + 1) cs (λ k lo hi. same k (omega (arith, lo)) (omega (arith, hi))) rest,
)

-- A string up to its NUL, and another from there on.
pub Holds-append :
    (m m' : Memory) (p : ℕ) (s t : List ℕ)
    → ((k : ℕ) → k < p + length s → m' k ≡ m k)
    → Holds m p s
    → Holds m' (p + length s) t
    → Holds m' p (s ++ t)
unfolding Holds
Holds-append m m' p [] t same h after =
    let start : p + 0 ≡ p = omega arith in subst (λ q. Holds m' q t) start after
Holds-append m m' p (c ∷ cs) t same (head, byte, rest) after =
    let start : p + suc (length cs) ≡ p + 1 + length cs = omega arith in
    (
      same p (omega arith) ∙ head,
      byte,
      Holds-append m m' (p + 1) cs t (λ k hi. same k (omega (arith, hi))) rest
          (subst (λ q. Holds m' q t) start after),
    )
