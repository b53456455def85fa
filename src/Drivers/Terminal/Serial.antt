-- ===== src/Drivers/Terminal/Serial.antt =====
-- What the operations of kernel/terminal.c send to the serial port.
use mathlib.Core.List.{append-nil, append_assoc}
use native.Mathlib.Nat.{div-div-eq-div-mul, pow-suc}
use miyar_os.Base.{
  ℕ, zero, suc, ◌+◌, ◌-◌, ◌*◌, ◌/◌, ◌%◌, ◌^◌, ◌<◌, ◌≡◌, refl, sym, ap, ◌∙◌, Bool, true, false, ◌&&◌,
  Option, none, some, List, [], ◌∷◌, ◌++◌, ◌==◌, leb, length, if◌then◌else◌, arith,
}
use miyar_os.Base.Bits.{every, every-at}
use miyar_os.Base.Text.{codes}
use miyar_os.Drivers.Terminal.{
  Terminal, serial_putc, terminal_putchar, terminal_write, terminal_write_in, hex_digit, hex_loop,
  terminal_write_hex,
}

-- A string is sent as it is, byte by byte.
pub terminal_write-serial :
    (s : List ℕ) (t : Terminal) → (terminal_write s t).serial ≡ t.serial ++ s
unfolding terminal_write terminal_putchar serial_putc
terminal_write-serial [] t = rw (append-nil) refl
terminal_write-serial (c ∷ cs) t =
    let step = terminal_write-serial cs (terminal_putchar c t) in
    step ∙ append_assoc t.serial (c ∷ []) cs

pub terminal_write_in-serial :
    (s : List ℕ) (t : Terminal) → (terminal_write_in s t).serial ≡ t.serial ++ (s ++ b'\n' ∷ [])
unfolding terminal_write_in
terminal_write_in-serial s t =
    terminal_write-serial (b'\n' ∷ []) (terminal_write s t)
    ∙ ap (λ (l : List ℕ). l ++ b'\n' ∷ []) (terminal_write-serial s t)
    ∙ append_assoc t.serial s (b'\n' ∷ [])

-- The value of a digit that is one of 0 to 9 or A to F.
unfoldable pub hex_value : ℕ → Option ℕ
hex_value c =
    if leb b'0' c && leb c b'9'
    then some (c - b'0')
    else if leb b'A' c && leb c b'F'
    then some (c - b'A' + 10)
    else none

-- A hexadecimal number read from the left. `acc` is the value of the digits before.
unfoldable pub read_hex : (acc : ℕ) → List ℕ → Option ℕ
unfolding hex_value
read_hex acc [] = some acc
read_hex acc (c ∷ cs) = elim (hex_value c) [ none ↦ none | some d ↦ read_hex (acc * 16 + d) cs ]

same_value : ℕ → Option ℕ → Bool
same_value d none = false
same_value d (some e) = d == e

same_value-is : (d : ℕ) (o : Option ℕ) → same_value d o ≡ true → o ≡ some d
unfolding same_value
same_value-is d none h = absurd (ground (arith, h))
same_value-is d (some e) h = let is : d ≡ e = ground arith in ap some (sym is)

hex_table : every (λ d. same_value d (hex_value (hex_digit d))) 16 ≡ true
unfolding every same_value hex_value hex_digit
hex_table = refl

hex_value-hex_digit : (d : ℕ) → d < 16 → hex_value (hex_digit d) ≡ some d
hex_value-hex_digit d small =
    same_value-is d _ (every-at (λ d. same_value d (hex_value (hex_digit d))) 16 hex_table d small)

-- The digits of a number, the `n` lowest, from the top down.
unfoldable pub hex_digits : (n value : ℕ) → List ℕ
hex_digits zero value = []
hex_digits (suc n) value = hex_digit (value / 16 ^ n % 16) ∷ hex_digits n value

hex_loop-serial :
    (n value : ℕ) (t : Terminal) → (hex_loop n value t).serial ≡ t.serial ++ hex_digits n value
unfolding hex_loop hex_digits terminal_putchar serial_putc
hex_loop-serial zero value t = rw (append-nil) refl
hex_loop-serial (suc n) value t =
    let c = hex_digit (value / 16 ^ n % 16) in
    hex_loop-serial n value (terminal_putchar c t)
    ∙ append_assoc t.serial (c ∷ []) (hex_digits n value)

read_hex-digit :
    (acc d : ℕ) (cs : List ℕ)
    → d < 16
    → read_hex acc (hex_digit d ∷ cs) ≡ read_hex (acc * 16 + d) cs
unfolding read_hex
read_hex-digit acc d cs small = rw (read_hex, hex_value-hex_digit d small) refl

read_hex-hex_digits : (n value : ℕ) → read_hex (value / 16 ^ n) (hex_digits n value) ≡ some value
unfolding hex_digits read_hex
read_hex-hex_digits zero value =
    let whole : value / 16 ^ 0 ≡ value = omega arith in rw (read_hex, whole) refl
read_hex-hex_digits (suc n) value =
    let above : value / 16 ^ n / 16 ≡ value / 16 ^ suc n =
      div-div-eq-div-mul value (16 ^ n) 16 ∙ ap (λ (m : ℕ). value / m) (sym (pow-suc 16 n)) in
    let here : value / 16 ^ suc n * 16 + value / 16 ^ n % 16 ≡ value / 16 ^ n =
      omega (arith, above) in
    let digit : value / 16 ^ n % 16 < 16 = omega arith in
    read_hex-digit (value / 16 ^ suc n) (value / 16 ^ n % 16) (hex_digits n value) digit
    ∙ ap (λ acc. read_hex acc (hex_digits n value)) here
    ∙ read_hex-hex_digits n value

length-hex_digits : (n value : ℕ) → length (hex_digits n value) ≡ n
unfolding hex_digits
length-hex_digits zero value = refl
length-hex_digits (suc n) value = rw (length-hex_digits n value) refl

-- A 32-bit number is sent as `0x` and eight hexadecimal digits that read back as it.
pub terminal_write_hex-read_hex :
    (value : ℕ) (t : Terminal)
    → value < 2 ^ 32
    → (ds : List ℕ) × ((terminal_write_hex value t).serial ≡ t.serial ++ (b'0' ∷ b'x' ∷ ds))
      × (length ds ≡ 8)
      × (read_hex 0 ds ≡ some value)
unfolding terminal_write_hex
terminal_write_hex-read_hex value t small =
    let t' = terminal_write (codes "0x") t in
    let nothing : value / 16 ^ 8 ≡ 0 = omega (arith, small) in
    (
      hex_digits 8 value,
      hex_loop-serial 8 value t'
          ∙ ap (λ (l : List ℕ). l ++ hex_digits 8 value) (terminal_write-serial (codes "0x") t)
          ∙ append_assoc t.serial (codes "0x") (hex_digits 8 value),
      length-hex_digits 8 value,
      ap (λ acc. read_hex acc (hex_digits 8 value)) (sym nothing) ∙ read_hex-hex_digits 8 value,
    )
