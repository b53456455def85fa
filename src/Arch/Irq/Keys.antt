-- ===== src/Arch/Irq/Keys.antt =====
-- The scancodes of a keyboard, and the characters that reach the buffer.
use mathlib.Core.List.{append-nil, append_assoc}
use miyar_os.Base.{
  ℕ, zero, suc, ◌<◌, ◌≡◌, refl, sym, ap, ◌∙◌, inl, inr, Bool, true, false, Option, none, some, List,
  [], ◌∷◌, ◌++◌, take, take-all, take-length, length, ltb, if◌then◌else◌, Bool-cases, arith,
}
use miyar_os.Drivers.Keyboard.Queue.{IsRing, waiting, keyboard_buffer_put-waiting, length-waiting}
use miyar_os.Drivers.Pic.{PortWrites, pic_send_eoi}
use miyar_os.Arch.Irq.{Machine, on_scancode, irq_handler}
use miyar_os.Arch.Irq.Scancodes.{
  shift_down, shift_up, silent, types, is_down, is_up, is_silent, is_typed, Key, Key-cases, key_of,
  typed, press, on_scancode-press, types, is_down, is_up, is_silent, is_typed,
}

-- The acknowledgements of some interrupts of the first controller.
unfoldable pub acknowledged : ℕ → PortWrites
acknowledged zero = []
acknowledged (suc n) = (0x20, 0x20) ∷ acknowledged n

-- The keyboard's interrupts for a row of scancodes.
unfoldable pub keyboard_irqs : (fuel r : ℕ) → List ℕ → Machine → Option Machine
keyboard_irqs fuel r [] m = some m
keyboard_irqs fuel r (s ∷ ss) m = elim (irq_handler fuel r 33 s m) [
  | none ↦ none
  | some (next_esp, m') ↦ keyboard_irqs fuel r ss m'
]

irq_handler-keyboard :
    (fuel r s : ℕ) (m : Machine)
    → irq_handler fuel r 33 s m
      ≡ some (r, record (on_scancode s m) { sent = (on_scancode s m).sent ++ ((0x20, 0x20) ∷ []) })
unfolding irq_handler pic_send_eoi
irq_handler-keyboard fuel r s m = refl

-- What is left of a full buffer's characters.
fill-take :
    (w rest : List ℕ) (c : ℕ)
    → length w < 128
    → take 127 ((if ltb (length w) 127 then w ++ (c ∷ []) else w) ++ rest)
      ≡ take 127 (w ++ (c ∷ rest))
fill-take w rest c small = elim (Bool-cases (ltb (length w) 127)) [
  | inl room ↦ rw (room) (ap (take 127) (append_assoc w (c ∷ []) rest))
  | inr full ↦
      let is : length w ≡ 127 = ground (arith, full, small) in
      rw (full) (take-length 127 w rest is ∙ sym (take-length 127 w (c ∷ rest) is))
]

-- The machine after keys, with the text that waits.
pub record Pressed (text : List ℕ) (count : ℕ) (m m' : Machine) : Type 0 where
  pub ring : IsRing m'.keyboard
  pub waits : waiting m'.keyboard ≡ text
  pub kernel : m'.kernel ≡ m.kernel
  pub ticks : m'.ticks ≡ m.ticks
  pub sent : m'.sent ≡ m.sent ++ acknowledged count

-- What a key adds to the text of the keys after it.
unfoldable pub typed_key : Key → (shift : Bool) → List ℕ → List ℕ
typed_key shift_down shift ss = typed true ss
typed_key shift_up shift ss = typed false ss
typed_key silent shift ss = typed shift ss
typed_key (types c) shift ss = c ∷ typed shift ss

typed-key :
    (shift : Bool) (s : ℕ) (ss : List ℕ)
    → typed shift (s ∷ ss) ≡ typed_key (key_of shift s) shift ss
unfolding typed typed_key
typed-key shift s ss = elim (Key-cases (key_of shift s)) [
  | is_down h ↦ rw (typed, h) refl
  | is_up h ↦ rw (typed, h) refl
  | is_silent h ↦ rw (typed, h) refl
  | is_typed c h ↦ rw (typed, h) refl
]

press-waiting :
    (key : Key) (m : Machine) (ss : List ℕ)
    → IsRing m.keyboard
    → IsRing (press key m).keyboard
      × (take 127 (waiting (press key m).keyboard ++ typed (press key m).shift_pressed ss)
          ≡ take 127 (waiting m.keyboard ++ typed_key key m.shift_pressed ss))
      × ((press key m).kernel ≡ m.kernel)
      × ((press key m).ticks ≡ m.ticks)
      × ((press key m).sent ≡ m.sent)
unfolding press typed_key
press-waiting shift_down m ss r = (r, refl, refl, refl, refl)
press-waiting shift_up m ss r = (r, refl, refl, refl, refl)
press-waiting silent m ss r = (r, refl, refl, refl, refl)
press-waiting (types c) m ss r =
    let (r', waits) = keyboard_buffer_put-waiting c m.keyboard r in
    let text = typed m.shift_pressed ss in
    (
      r',
      ap (λ (w : List ℕ). take 127 (w ++ text)) waits
          ∙ fill-take (waiting m.keyboard) text c (length-waiting m.keyboard),
      refl,
      refl,
      refl,
    )

-- An interrupt of the keyboard.
keyboard_irq-waiting :
    (fuel r s : ℕ) (m : Machine) (ss : List ℕ)
    → IsRing m.keyboard
    → (m' : Machine) × (irq_handler fuel r 33 s m ≡ some (r, m'))
      × IsRing m'.keyboard
      × (take 127 (waiting m'.keyboard ++ typed m'.shift_pressed ss)
          ≡ take 127 (waiting m.keyboard ++ typed m.shift_pressed (s ∷ ss)))
      × (m'.kernel ≡ m.kernel)
      × (m'.ticks ≡ m.ticks)
      × (m'.sent ≡ m.sent ++ ((0x20, 0x20) ∷ []))
keyboard_irq-waiting fuel r s m ss ring =
    let key = key_of m.shift_pressed s in
    let (ring', waits, kernel, ticks, sent) = press-waiting key m ss ring in
    let ended : Machine → Machine = λ n. record n { sent = n.sent ++ ((0x20, 0x20) ∷ []) } in
    (
      ended (press key m),
      irq_handler-keyboard fuel r s m ∙ ap (λ n. some (r, ended n)) (on_scancode-press s m),
      ring',
      waits
          ∙ ap (λ (l : List ℕ). take 127 (waiting m.keyboard ++ l))
              (sym (typed-key m.shift_pressed s ss)),
      kernel,
      ticks,
      ap (λ (l : PortWrites). l ++ ((0x20, 0x20) ∷ [])) sent,
    )

-- With a ring whose indices are in range, the keyboard's interrupts for a row of scancodes all
-- return; then the characters that the scancodes mean wait behind those that waited, in their
-- order, the first 127 of them all; the kernel and the clock are as before, and each interrupt is
-- acknowledged once.
pub keyboard_irqs-waiting :
    (fuel r : ℕ) (ss : List ℕ) (m : Machine)
    → IsRing m.keyboard
    → (m' : Machine) × (keyboard_irqs fuel r ss m ≡ some m')
      × Pressed (take 127 (waiting m.keyboard ++ typed m.shift_pressed ss)) (length ss) m m'
unfolding keyboard_irqs typed acknowledged
keyboard_irqs-waiting fuel r [] m ring = (
  m,
  refl,
  record {
    ring = ring;
    waits = sym (
        ap (take 127) (append-nil (waiting m.keyboard))
        ∙ take-all 127 (waiting m.keyboard) (omega (arith, length-waiting m.keyboard)));
    kernel = refl;
    ticks = refl;
    sent = sym (append-nil m.sent);
  },
)
keyboard_irqs-waiting fuel r (s ∷ ss) m ring =
    let (m', step, ring', waits, kernel, ticks, sent) = keyboard_irq-waiting fuel r s m ss ring in
    let (m'', steps, p) = keyboard_irqs-waiting fuel r ss m' ring' in
    (
      m'',
      rw (keyboard_irqs, step) steps,
      record {
        ring = p.ring;
        waits = p.waits ∙ waits;
        kernel = p.kernel ∙ kernel;
        ticks = p.ticks ∙ ticks;
        sent =
            p.sent
            ∙ ap (λ (l : PortWrites). l ++ acknowledged (length ss)) sent
            ∙ append_assoc m.sent ((0x20, 0x20) ∷ []) (acknowledged (length ss));
      },
    )
