-- ===== src/Arch/Gdt/Decode.antt =====
-- The processor reads back the descriptors as they were asked for.
use Prim.Native.Nat.{bit_and, bit_or}
use miyar_os.Base.{
  ℕ, ◌+◌, ◌*◌, ◌/◌, ◌%◌, ◌^◌, ◌<◌, ◌≡◌, ◌≢◌, refl, sym, Bool, true, ◌&&◌, ◌==◌, arith, ==-ne,
}
use miyar_os.Base.Bits.{every, every-at}
use miyar_os.Arch.Gdt.{GdtEntry, Gdt, gdt_set_gate}

-- What the processor finds in a descriptor: a linear address, the last offset in bytes or in pages
-- of 4 KB, and the four flags that say which.
abbrev pub segment_base : GdtEntry → ℕ
segment_base e = e.base_low + e.base_middle * 2 ^ 16 + e.base_high * 2 ^ 24

abbrev pub segment_limit : GdtEntry → ℕ
segment_limit e = e.limit_low + e.granularity % 2 ^ 4 * 2 ^ 16

abbrev pub segment_flags : GdtEntry → ℕ
segment_flags e = e.granularity / 2 ^ 4

nibble_law : ℕ → ℕ → Bool
nibble_law x g = let b = bit_or x (bit_and g 0xF0) in (b % 16 == x) && (b / 16 == g / 16)

nibble_table : every (λ x. every (nibble_law x) 256) 16 ≡ true
unfolding every nibble_law
nibble_table = refl

nibbles :
    (x g : ℕ)
    → x < 16
    → g < 256
    → (bit_or x (bit_and g 0xF0) % 2 ^ 4 ≡ x) × (bit_or x (bit_and g 0xF0) / 2 ^ 4 ≡ g / 2 ^ 4)
unfolding nibble_law
nibbles x g hx hg =
    let row = every-at (λ k. every (nibble_law k) 256) 16 nibble_table x hx in
    let law = every-at (nibble_law x) 256 row g hg in (ground (arith, law), ground (arith, law))

-- A descriptor that is set for a base and a limit of 32 bits and access and flags of 8 reads back
-- as the base, the lowest 20 bits of the limit, the access byte and the upper four bits of the
-- flags, and the other descriptors are as they were.
pub gdt_set_gate-segment :
    (num base limit access gran : ℕ) (gdt : Gdt)
    → base < 2 ^ 32
    → gran < 2 ^ 8
    → (segment_base (gdt_set_gate num base limit access gran gdt num) ≡ base)
      × (segment_limit (gdt_set_gate num base limit access gran gdt num) ≡ limit % 2 ^ 20)
      × (segment_flags (gdt_set_gate num base limit access gran gdt num) ≡ gran / 2 ^ 4)
      × ((gdt_set_gate num base limit access gran gdt num).access ≡ access)
      × ((other : ℕ) → other ≢ num → gdt_set_gate num base limit access gran gdt other ≡ gdt other)
unfolding gdt_set_gate
gdt_set_gate-segment num base limit access gran gdt hb hg =
    let (low, high) = nibbles (limit / 2 ^ 16 % 2 ^ 4) gran (omega arith) hg in
    let here : (num == num) ≡ true = ground arith in
    (
      rw (here) (omega (arith, hb)),
      rw (here, low) (omega arith),
      rw (here) high,
      rw (here) refl,
      λ other apart. rw (==-ne num other (λ e. apart (sym e))) refl,
    )
