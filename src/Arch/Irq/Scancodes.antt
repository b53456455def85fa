-- ===== src/Arch/Irq/Scancodes.antt =====
-- What scancodes mean, and what the keyboard's branch of `irq_handler` does with one.
use miyar_os.Base.{
  ℕ, ◌≡◌, refl, inl, inr, Bool, true, false, not, ◌&&◌, ◌||◌, List, [], ◌∷◌, get_or, ◌==◌, ltb,
  if◌then◌else◌, Bool-cases, arith,
}
use miyar_os.Base.Bits.{bit_test, every, every-at}
use miyar_os.Drivers.Keyboard.{keyboard_buffer_put}
use miyar_os.Arch.Irq.{Machine, on_scancode}
use miyar_os.Arch.Irq.Tables.{scancode_table, scancode_table_shift}

-- What a scancode means.
pub data Key : Type 0 where
  shift_down shift_up silent : Key
  types : ℕ → Key

-- Which key it is, with an equation.
pub data KeyCases (k : Key) : Type 0 where
  is_down : k ≡ shift_down → KeyCases k
  is_up : k ≡ shift_up → KeyCases k
  is_silent : k ≡ silent → KeyCases k
  is_typed : (c : ℕ) → k ≡ types c → KeyCases k

pub Key-cases : (k : Key) → KeyCases k
Key-cases shift_down = is_down refl
Key-cases shift_up = is_up refl
Key-cases silent = is_silent refl
Key-cases (types c) = is_typed c refl

unfoldable pub key_of : (shift : Bool) → (scancode : ℕ) → Key
key_of shift scancode =
    let c = get_or (if shift then scancode_table_shift else scancode_table) scancode 0 in
    if (scancode == 0x2A) || (scancode == 0x36)
    then shift_down
    else if (scancode == 0xAA) || (scancode == 0xB6)
    then shift_up
    else if ltb scancode 128 && not (c == 0)
    then types c
    else silent

-- The characters of a row of scancodes, and whether shift is down in the end.
unfoldable pub typed : (shift : Bool) → List ℕ → List ℕ
unfolding key_of
typed shift [] = []
typed shift (s ∷ ss) = elim (key_of shift s) [
  | shift_down ↦ typed true ss
  | shift_up ↦ typed false ss
  | silent ↦ typed shift ss
  | types c ↦ c ∷ typed shift ss
]

table_law : ℕ → Bool
table_law s = not (bit_test s 7)

scancode_bits : every table_law 128 ≡ true
unfolding every table_law
scancode_bits = refl

bit_test-scancode : (s : ℕ) → (not (bit_test s 7) && ltb s 128) ≡ ltb s 128
unfolding table_law
bit_test-scancode s = elim (Bool-cases (ltb s 128)) [
  | inl low ↦
      let clear = every-at table_law 128 scancode_bits s (ground (arith, low)) in
      rw (low, clear) refl
  | inr high ↦ elim (Bool-cases (bit_test s 7)) [
    | inl b ↦ rw (high, b) refl
    | inr b ↦ rw (high, b) refl
  ]
]

-- What a key does to the machine.
unfoldable pub press : Key → Machine → Machine
press shift_down m = record m { shift_pressed = true }
press shift_up m = record m { shift_pressed = false }
press silent m = m
press (types c) m = record m { keyboard = keyboard_buffer_put c m.keyboard }

pub on_scancode-press : (s : ℕ) (m : Machine) → on_scancode s m ≡ press (key_of m.shift_pressed s) m
unfolding on_scancode press key_of
on_scancode-press s m = elim (Bool-cases ((s == 0x2A) || (s == 0x36))) [
  | inl down ↦ rw (down) refl
  | inr d ↦ elim (Bool-cases ((s == 0xAA) || (s == 0xB6))) [
    | inl up ↦ rw (d, up) refl
    | inr u ↦ elim (Bool-cases (ltb s 128)) [
      | inr high ↦ rw (d, u, bit_test-scancode s, high) refl
      | inl low ↦
          elim (Bool-cases
            (get_or (if m.shift_pressed then scancode_table_shift else scancode_table) s 0 == 0)) [
              | inl blank ↦ rw (d, u, bit_test-scancode s, low, blank) refl
              | inr letter ↦ rw (d, u, bit_test-scancode s, low, letter) refl
            ]
    ]
  ]
]
