-- ===== src/Arch/Idt.antt =====
-- kernel/arch/x86/idt.c: the interrupt gates. The stubs are assembly: `isr_stub n` and `irq_stub n`
-- are their addresses.
pub mod Decode
use miyar_os.Base.{ℕ, zero, suc, ◌+◌, ◌/◌, ◌%◌, ◌^◌, update}

-- `struct idt_entry`
pub record IdtEntry : Type 0 where
  pub offset_low : ℕ
  pub selector : ℕ
  pub zero_byte : ℕ
  pub type_attr : ℕ
  pub offset_high : ℕ

abbrev pub Idt : Type 0
Idt = ℕ → IdtEntry

unfoldable pub idt_set_gate : (num handler selector flags : ℕ) → Idt → Idt
idt_set_gate num handler selector flags idt = update idt (num % 2 ^ 8) (record {
  offset_low = handler % 2 ^ 16;
  selector = selector;
  zero_byte = 0;
  type_attr = flags;
  offset_high = handler / 2 ^ 16 % 2 ^ 16;
})

-- `SET_ISR(n)` and `SET_IRQ(n)`
abbrev pub set_isr : (isr_stub : ℕ → ℕ) (n : ℕ) → Idt → Idt
set_isr isr_stub n = idt_set_gate n (isr_stub n) 0x08 0x8E

abbrev pub set_irq : (irq_stub : ℕ → ℕ) (n : ℕ) → Idt → Idt
set_irq irq_stub n = idt_set_gate (32 + n) (irq_stub n) 0x08 0x8E

-- A macro for the numbers from 0 up to `count`, in their order.
unfoldable pub set_gates : (set : ℕ → Idt → Idt) → (count : ℕ) → Idt → Idt
set_gates set zero idt = idt
set_gates set (suc n) idt = set n (set_gates set n idt)

-- Up to the call of `idt_load`.
unfoldable pub idt_init : (isr_stub irq_stub : ℕ → ℕ) → Idt → Idt
unfolding set_gates idt_set_gate
idt_init isr_stub irq_stub idt =
    set_gates (set_irq irq_stub) 16 (set_gates (set_isr isr_stub) 32 idt)
