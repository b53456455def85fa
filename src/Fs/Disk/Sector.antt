-- ===== src/Fs/Disk/Sector.antt =====
-- Little-endian numbers in a sector.
use miyar_os.Base.{ℕ, ◌+◌, ◌*◌, ◌/◌, ◌%◌, ◌^◌, ◌≤◌, ◌≡◌, ◌⊎◌, inl, inr, update, arith}

abbrev pub get16 : (ℕ → ℕ) → ℕ → ℕ
get16 s o = s o + 256 * s (o + 1)

abbrev pub get32 : (ℕ → ℕ) → ℕ → ℕ
get32 s o = s o + 256 * s (o + 1) + 65536 * s (o + 2) + 16777216 * s (o + 3)

-- Byte `k` of a number.
abbrev pub byte_of : ℕ → ℕ → ℕ
byte_of w k = w / 256 ^ k % 256

abbrev pub put32 : (ℕ → ℕ) → ℕ → ℕ → ℕ → ℕ
put32 s o w =
    update (update (update (update s o (byte_of w 0)) (o + 1) (byte_of w 1)) (o + 2) (byte_of w 2))
      (o + 3) (byte_of w 3)

pub get32-put32_mod : (s : ℕ → ℕ) (o w : ℕ) → get32 (put32 s o w) o ≡ w % 2 ^ 32
get32-put32_mod s o w = ground arith

pub get32-put32_other :
    (s : ℕ → ℕ) (o p w : ℕ) → (o + 4 ≤ p) ⊎ (p + 4 ≤ o) → get32 (put32 s o w) p ≡ get32 s p
get32-put32_other s o p w (inl h) = ground arith
get32-put32_other s o p w (inr h) = ground arith
