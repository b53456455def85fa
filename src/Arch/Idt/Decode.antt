-- ===== src/Arch/Idt/Decode.antt =====
-- The processor finds the stub of an interrupt in its gate.
use mathlib.Core.Path.{subst}
use miyar_os.Base.{
  ℕ, zero, suc, ◌+◌, ◌*◌, ◌%◌, ◌^◌, ◌<◌, ◌≤◌, ◌≡◌, ◌≢◌, refl, sym, ◌∙◌, inl, inr, true, ◌==◌,
  Bool-cases, ==-ne, arith,
}
use miyar_os.Arch.Idt.{IdtEntry, Idt, idt_set_gate, set_isr, set_gates, idt_init}

-- The address that the processor takes from a gate.
abbrev pub gate_offset : IdtEntry → ℕ
gate_offset e = e.offset_low + e.offset_high * 2 ^ 16

-- A gate for a stub: the kernel's code segment, present, of ring 0, an interrupt gate of 32 bits.
pub record IsGate (stub : ℕ) (e : IdtEntry) : Type 0 where
  pub offset : gate_offset e ≡ stub
  pub selector : e.selector ≡ 8
  pub kind : e.type_attr ≡ 0x8E
  pub blank : e.zero_byte ≡ 0

idt_set_gate-IsGate :
    (num stub : ℕ) (idt : Idt)
    → num < 256
    → stub < 2 ^ 32
    → IsGate stub (idt_set_gate num stub 0x08 0x8E idt num)
unfolding idt_set_gate
idt_set_gate-IsGate num stub idt hn hs =
    let is : num % 2 ^ 8 ≡ num = omega (arith, hn) in
    let here : (num == num) ≡ true = ground arith in
    rw (is, here)
      (record { offset = omega (arith, hs); selector = refl; kind = refl; blank = refl })

idt_set_gate-other :
    (num stub other : ℕ) (idt : Idt)
    → num < 256
    → num ≢ other
    → idt_set_gate num stub 0x08 0x8E idt other ≡ idt other
unfolding idt_set_gate
idt_set_gate-other num stub other idt hn apart =
    let is : num % 2 ^ 8 ≡ num = omega (arith, hn) in rw (is, ==-ne num other apart) refl

module _ (stub : ℕ → ℕ) (place : ℕ → ℕ) (apart : (m n : ℕ) → m ≢ n → place m ≢ place n) where
  -- The gate of the number `n` of a macro.
  abbrev set_at : ℕ → Idt → Idt
  set_at n = idt_set_gate (place n) (stub n) 0x08 0x8E

  set_gates-IsGate :
      (count n : ℕ) (idt : Idt)
      → ((m : ℕ) → m < count → place m < 256)
      → n < count
      → stub n < 2 ^ 32
      → IsGate (stub n) (set_gates set_at count idt (place n))
  unfolding set_gates
  set_gates-IsGate zero n idt room small hs = absurd (omega (arith, small))
  set_gates-IsGate (suc m) n idt room small hs = elim (Bool-cases (m == n)) [
    | inl here ↦
        let is : m ≡ n = ground arith in
        subst (λ k. IsGate (stub n) (set_at k (set_gates set_at m idt) (place n))) (sym is)
          (idt_set_gate-IsGate (place n) (stub n) (set_gates set_at m idt) (room n small) hs)
    | inr before ↦
        subst (IsGate (stub n))
          (sym (
            idt_set_gate-other (place m) (stub m) (place n) (set_gates set_at m idt)
              (room m (omega arith)) (apart m n (ground (arith, before)))))
          (set_gates-IsGate m n idt (λ k below. room k (omega (arith, below)))
            (ground (arith, small, before)) hs)
  ]

  set_gates-other :
      (count other : ℕ) (idt : Idt)
      → ((m : ℕ) → m < count → place m < 256)
      → ((m : ℕ) → m < count → place m ≢ other)
      → set_gates set_at count idt other ≡ idt other
  unfolding set_gates
  set_gates-other zero other idt room out = refl
  set_gates-other (suc m) other idt room out =
      idt_set_gate-other (place m) (stub m) other (set_gates set_at m idt) (room m (omega arith))
        (out m (omega arith))
      ∙ set_gates-other m other idt (λ k below. room k (omega (arith, below)))
          (λ k below. out k (omega (arith, below)))

-- After `idt_init`, with the addresses of the stubs within 32 bits, the gates 0 to 31 are for the
-- stubs of the exceptions, the gates 32 to 47 for those of the interrupts, and the others are as
-- they were.
pub idt_init-IsGate :
    (isr_stub irq_stub : ℕ → ℕ) (idt : Idt)
    → ((n : ℕ) → isr_stub n < 2 ^ 32)
    → ((n : ℕ) → irq_stub n < 2 ^ 32)
    → ((n : ℕ) → n < 32 → IsGate (isr_stub n) (idt_init isr_stub irq_stub idt n))
      × ((n : ℕ) → n < 16 → IsGate (irq_stub n) (idt_init isr_stub irq_stub idt (32 + n)))
      × ((n : ℕ) → 48 ≤ n → idt_init isr_stub irq_stub idt n ≡ idt n)
unfolding idt_init
idt_init-IsGate isr_stub irq_stub idt hi hq =
    let first = set_gates (set_isr isr_stub) 32 idt in
    let shifted : (m n : ℕ) → m ≢ n → 32 + m ≢ 32 + n = λ m n h. omega (arith, h) in
    (
      λ n small.
          subst (IsGate (isr_stub n))
            (sym (
              set_gates-other irq_stub (λ k. 32 + k) shifted 16 n first
                (λ k below. omega (arith, below)) (λ k below. omega (arith, small))))
            (set_gates-IsGate isr_stub (λ k. k) (λ k l h. h) 32 n idt
              (λ k below. omega (arith, below)) small (hi n)),
      λ n small.
          set_gates-IsGate irq_stub (λ k. 32 + k) shifted 16 n first
            (λ k below. omega (arith, below)) small (hq n),
      λ n past.
          set_gates-other irq_stub (λ k. 32 + k) shifted 16 n first
            (λ k below. omega (arith, below)) (λ k below. omega (arith, past, below))
          ∙ set_gates-other isr_stub (λ k. k) (λ k l h. h) 32 n idt
              (λ k below. omega (arith, below)) (λ k below. omega (arith, past, below)),
    )
