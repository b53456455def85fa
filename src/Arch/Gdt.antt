-- ===== src/Arch/Gdt.antt =====
-- kernel/arch/x86/gdt.c: the segment descriptors. Loading them is assembly, which is not modelled.
pub mod Decode
use miyar_os.Base.{ℕ, ◌+◌, ◌/◌, ◌%◌, ◌^◌, update}
use Prim.Native.Nat.{bit_and, bit_or}

-- `struct gdt_entry`
pub record GdtEntry : Type 0 where
  pub limit_low : ℕ
  pub base_low : ℕ
  pub base_middle : ℕ
  pub access : ℕ
  pub granularity : ℕ
  pub base_high : ℕ

abbrev pub Gdt : Type 0
Gdt = ℕ → GdtEntry

unfoldable pub gdt_set_gate : (num base limit access gran : ℕ) → Gdt → Gdt
gdt_set_gate num base limit access gran gdt = update gdt num (record {
  limit_low = limit % 2 ^ 16;
  base_low = base % 2 ^ 16;
  base_middle = base / 2 ^ 16 % 2 ^ 8;
  access = access;
  granularity = bit_or (limit / 2 ^ 16 % 2 ^ 4) (bit_and gran 0xF0);
  base_high = base / 2 ^ 24 % 2 ^ 8;
})

-- Up to the call of `gdt_flush`.
unfoldable pub gdt_init : Gdt → Gdt
unfolding gdt_set_gate
gdt_init gdt =
    gdt_set_gate 2 0 0xFFFFFFFF 0x92 0xCF
      (gdt_set_gate 1 0 0xFFFFFFFF 0x9A 0xCF (gdt_set_gate 0 0 0 0 0 gdt))
