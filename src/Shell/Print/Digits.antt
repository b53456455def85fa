-- ===== src/Shell/Print/Digits.antt =====
-- The number that `write_uint32` prints reads back as the number it was given.
use native.Mathlib.Nat.{pow-suc}
use miyar_os.Base.{
  ℕ, zero, suc, ◌+◌, ◌-◌, ◌*◌, ◌/◌, ◌%◌, ◌^◌, ◌<◌, ◌≡◌, refl, ap, ◌∙◌, inl, inr, true, false, ◌&&◌,
  Option, none, some, List, [], ◌∷◌, ◌++◌, ◌==◌, leb, if◌then◌else◌, Bool-cases, arith,
}
use miyar_os.Drivers.Terminal.{Terminal, terminal_write}
use miyar_os.Drivers.Terminal.Serial.{terminal_write-serial, terminal_write_in-serial}
use miyar_os.Shell.Print.{digits, write_uint32}

-- A decimal number read from the left. `acc` is the value of the digits before.
unfoldable pub read_decimal : (acc : ℕ) → List ℕ → Option ℕ
read_decimal acc [] = some acc
read_decimal acc (c ∷ cs) =
    let rest = read_decimal (acc * 10 + (c - b'0')) cs in
    if leb b'0' c && leb c b'9' then rest else none

read_decimal-digit :
    (acc d : ℕ) (cs : List ℕ)
    → d < 10
    → read_decimal acc ((b'0' + d) ∷ cs) ≡ read_decimal (acc * 10 + d) cs
unfolding read_decimal
read_decimal-digit acc d cs small =
    let low : leb b'0' (b'0' + d) ≡ true = ground arith in
    let high : leb (b'0' + d) b'9' ≡ true = ground arith in
    let back : (b'0' + d) - b'0' ≡ d = omega arith in rw (low, high, back) refl

-- The digits before `done` read as the value they were made of.
read_decimal-digits :
    (n value : ℕ) (done : List ℕ)
    → value < 10 ^ n
    → read_decimal 0 (digits n value done) ≡ read_decimal value done
unfolding digits
read_decimal-digits zero value done small =
    let nothing : value ≡ 0 = omega (arith, small) in rw (nothing) refl
read_decimal-digits (suc n) value done small = elim (Bool-cases (value == 0)) [
  | inl z ↦ let nothing : value ≡ 0 = ground arith in rw (z, nothing) refl
  | inr positive ↦
      let less : value / 10 < 10 ^ n = omega (arith, small, pow-suc 10 n) in
      let digit : value % 10 < 10 = omega arith in
      let whole : value / 10 * 10 + value % 10 ≡ value = omega arith in
      rw (positive) (
        read_decimal-digits n (value / 10) ((b'0' + value % 10) ∷ done) less
        ∙ read_decimal-digit (value / 10) (value % 10) done digit
        ∙ ap (λ v. read_decimal v done) whole)
]

write_uint32-positive :
    (value : ℕ) (t : Terminal)
    → (value == 0) ≡ false
    → write_uint32 value t ≡ terminal_write (digits 10 value []) t
unfolding write_uint32
write_uint32-positive value t positive = rw (positive) refl

-- The number 0 is sent as its digit and a newline.
write_uint32-zero : (t : Terminal) → (write_uint32 0 t).serial ≡ t.serial ++ (b'0' ∷ b'\n' ∷ [])
unfolding write_uint32
write_uint32-zero t = terminal_write_in-serial (b'0' ∷ []) t

-- A 32-bit number other than 0 is sent as digits that read back as it, and nothing after them.
pub write_uint32-read_decimal :
    (value : ℕ) (t : Terminal)
    → 0 < value
    → value < 2 ^ 32
    → (ds : List ℕ) × ((write_uint32 value t).serial ≡ t.serial ++ ds)
      × (read_decimal 0 ds ≡ some value)
unfolding read_decimal
write_uint32-read_decimal value t positive small =
    let is : (value == 0) ≡ false = ground (arith, positive) in
    (
      digits 10 value [],
      ap (λ u. u.serial) (write_uint32-positive value t is)
          ∙ terminal_write-serial (digits 10 value []) t,
      read_decimal-digits 10 value [] (omega (arith, small)) ∙ refl,
    )
