-- ===== src/Base/Bits.antt =====
-- Bits of a byte. The native bit operations have no laws at variables, so the laws of one byte are
-- read off a table of all bytes and all pairs of bits.
use Prim.Native.Nat.{ℕ, zero, suc, ◌-◌, ◌^◌, ◌<◌, bit_and, bit_or}
use mathlib.Core.Path.{◌≡◌, refl}
use mathlib.Core.Bool.{Bool, true, false, not, ◌&&◌, ◌||◌}
use native.Mathlib.Omega.{arith}
use mathlib.Core.Logic.{inl, inr}
use miyar_os.Base.Tests.{◌==◌, ltb, Bool-cases}

-- The test holds of the numbers below a bound.
unfoldable pub every : (ℕ → Bool) → (bound : ℕ) → Bool
every test zero = true
every test (suc last) = every test last && test last

pub every-at :
    (test : ℕ → Bool) (bound : ℕ) → every test bound ≡ true → (k : ℕ) → k < bound → test k ≡ true
unfolding every
every-at test (suc last) passed k below =
    let earlier : every test last ≡ true = ground arith in
    elim (Bool-cases (k == last)) [
      | inl here ↦ let is : k ≡ last = ground arith in ground arith
      | inr before ↦ every-at test last earlier k (ground arith)
    ]
every-at test zero passed k below = absurd (omega (arith, below))

-- `b & (1 << k)`, as a truth value.
abbrev pub bit_test : ℕ → ℕ → Bool
bit_test b k = not (bit_and b (2 ^ k) == 0)

-- `b | (1 << k)`
abbrev pub bit_set : ℕ → ℕ → ℕ
bit_set b k = bit_or b (2 ^ k)

-- `b & ~(1 << k)`, on a byte.
abbrev pub bit_reset : ℕ → ℕ → ℕ
bit_reset b k = bit_and b (255 - 2 ^ k)

abbrev same : Bool → Bool → Bool
same true b = b
same false b = not b

same-eq : (a b : Bool) → same a b ≡ true → a ≡ b
same-eq a b h = ground arith

abbrev set_law : ℕ → ℕ → ℕ → Bool
set_law b k j = same (bit_test (bit_set b k) j) ((k == j) || bit_test b j)

abbrev reset_law : ℕ → ℕ → ℕ → Bool
reset_law b k j = same (bit_test (bit_reset b k) j) (not (k == j) && bit_test b j)

abbrev range_law : ℕ → ℕ → Bool
range_law b k = ltb (bit_set b k) 256 && ltb (bit_reset b k) 256

set_table : every (λ b. every (λ k. every (set_law b k) 8) 8) 256 ≡ true
unfolding every
set_table = refl

reset_table : every (λ b. every (λ k. every (reset_law b k) 8) 8) 256 ≡ true
unfolding every
reset_table = refl

range_table : every (λ b. every (range_law b) 8) 256 ≡ true
unfolding every
range_table = refl

module _ (b k : ℕ) (hb : b < 256) (hk : k < 8) where
  pub bit_test-bit_set : (j : ℕ) → j < 8 → bit_test (bit_set b k) j ≡ ((k == j) || bit_test b j)
  bit_test-bit_set j hj =
      same-eq _ _ (every-at _ 8 (every-at _ 8 (every-at _ 256 set_table b hb) k hk) j hj)

  pub bit_test-bit_reset :
      (j : ℕ) → j < 8 → bit_test (bit_reset b k) j ≡ (not (k == j) && bit_test b j)
  bit_test-bit_reset j hj =
      same-eq _ _ (every-at _ 8 (every-at _ 8 (every-at _ 256 reset_table b hb) k hk) j hj)

  in_range : range_law b k ≡ true
  in_range = every-at _ 8 (every-at _ 256 range_table b hb) k hk

  pub bit_set-lt : bit_set b k < 256
  bit_set-lt = ground (arith, in_range)

  pub bit_reset-lt : bit_reset b k < 256
  bit_reset-lt = ground (arith, in_range)
