-- ===== src/Memory/Vm/Words.antt =====
-- A page-aligned address or'ed with flag bits. The laws of `bit_or` come from the digit recursion
-- that the native operation stands for.
use Prim.Native.Nat.{digits, bit_or, bit_or-bitwise, max}
use native.Mathlib.Nat.{pow-suc}
use miyar_os.Base.{ℕ, zero, suc, ◌+◌, ◌*◌, ◌/◌, ◌%◌, ◌^◌, ◌≤◌, ◌<◌, ◌≡◌, refl, ap, arith}

-- The recursion that `bit_or` stands for, with `rounds` of fuel.
abbrev joined : (left right rounds : ℕ) → ℕ
joined left right rounds = digits (λ c. c) max rounds left right

-- Any fuel that is as large as the left number gives the same.
joined-fuel : (x y : ℕ) (r : ℕ) → x ≤ r → (s : ℕ) → x ≤ s → joined x y r ≡ joined x y s
joined-fuel (suc x) y (suc r) h (suc s) g =
    let half : (t : ℕ) → suc x ≤ suc t → suc x / 2 ≤ t = λ t le. omega (arith, le) in
    omega (arith, joined-fuel (suc x / 2) (y / 2) r (half r h) s (half s g))
joined-fuel (suc x) y zero h s g = absurd (omega (arith, h))
joined-fuel (suc x) y (suc r) h zero g = absurd (omega (arith, g))
joined-fuel zero y zero h zero g = refl
joined-fuel zero y zero h (suc s) g = refl
joined-fuel zero y (suc r) h zero g = refl
joined-fuel zero y (suc r) h (suc s) g = refl

-- The lowest bit, and the rest.
bit_or-halves : (x y : ℕ) → bit_or x y ≡ max (x % 2) (y % 2) + 2 * bit_or (x / 2) (y / 2)
bit_or-halves (suc x) y =
    let rest = bit_or-bitwise (suc x / 2) (y / 2) in
    let fuel = joined-fuel (suc x / 2) (y / 2) x (omega arith) (suc x / 2) (omega arith) in
    omega (arith, bit_or-bitwise (suc x) y, rest, fuel)
bit_or-halves zero y = omega (arith, bit_or-bitwise 0 y, bit_or-bitwise 0 (y / 2))

bit_or-nothing : (rounds x : ℕ) → x ≤ rounds → bit_or x 0 ≡ x
bit_or-nothing rounds zero h = refl
bit_or-nothing zero (suc x) h = absurd (omega (arith, h))
bit_or-nothing (suc r) (suc x) h =
    let rest = bit_or-nothing r (suc x / 2) (omega (arith, h)) in
    omega (arith, rest, bit_or-halves (suc x) 0)

-- Below `w` bits the first number has none, so or'ing is adding.
bit_or-disjoint : (w a k f : ℕ) → a ≡ 2 ^ w * k → f < 2 ^ w → bit_or a f ≡ a + f
bit_or-disjoint zero a k f e h =
    let none : f ≡ 0 = omega arith in rw none (omega (arith, bit_or-nothing a a (omega arith)))
bit_or-disjoint (suc w) a k f e h =
    let twice : a ≡ 2 * (2 ^ w * k) =
      omega (arith, pow-suc 2 w, ap (λ (t : ℕ). t * k) (pow-suc 2 w)) in
    let small : f / 2 < 2 ^ w = omega (arith, pow-suc 2 w) in
    omega (arith, bit_or-halves a f, bit_or-disjoint w (a / 2) k (f / 2) (omega arith) small)

pub bit_or-page : (p f : ℕ) → f < 4096 → bit_or (p / 4096 * 4096) f ≡ p / 4096 * 4096 + f
bit_or-page p f h = bit_or-disjoint 12 (p / 4096 * 4096) (p / 4096) f (omega arith) h
