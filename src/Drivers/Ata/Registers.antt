-- ===== src/Drivers/Ata/Registers.antt =====
-- The registers of a command on a sector, as they are written and as the controller reads them.
use Prim.Native.Nat.{bit_or}
use miyar_os.Base.{
  ℕ, ◌+◌, ◌*◌, ◌/◌, ◌%◌, ◌^◌, ◌<◌, ◌≡◌, refl, ap, ◌∙◌, Bool, true, List, [], ◌∷◌, ◌++◌, ◌==◌, arith,
}
use miyar_os.Base.Bits.{every, every-at}
use miyar_os.Drivers.Ata.{Ports, AtaDevice, ata_base_port}

-- A record of what was written to the ports: the port and the value, in order.
pub record History (P : Ports) : Type 0 where
  pub log : P.State → List (ℕ × ℕ)
  pub log-inb : (port : ℕ) (s : P.State) → log (P.inb port s).1 ≡ log s
  pub log-outb :
      (port value : ℕ) (s : P.State) → log (P.outb port value s) ≡ log s ++ (port, value) ∷ []
  pub log-outw :
      (port value : ℕ) (s : P.State) → log (P.outw port value s) ≡ log s ++ (port, value) ∷ []

-- What is sent for a command on a sector.
abbrev pub command_writes : AtaDevice → (lba command : ℕ) → List (ℕ × ℕ)
command_writes device lba command =
    let base = ata_base_port device.channel in
    (base + 6, bit_or (bit_or 0xE0 (device.drive * 2 ^ 4)) (lba / 2 ^ 24 % 2 ^ 4))
    ∷ (base + 2, 1)
    ∷ (base + 3, lba % 2 ^ 8)
    ∷ (base + 4, lba / 2 ^ 8 % 2 ^ 8)
    ∷ (base + 5, lba / 2 ^ 16 % 2 ^ 8)
    ∷ (base + 7, command)
    ∷ []

select_law : ℕ → ℕ → Bool
select_law drive n = bit_or (bit_or 0xE0 (drive * 2 ^ 4)) n == 0xE0 + 16 * drive + n

select_table : every (λ drive. every (select_law drive) 16) 2 ≡ true
unfolding every select_law
select_table = refl

select_register :
    (drive n : ℕ)
    → drive < 2
    → n < 16
    → bit_or (bit_or 0xE0 (drive * 2 ^ 4)) n ≡ 0xE0 + 16 * drive + n
unfolding select_law
select_register drive n hd hn =
    let row = every-at (λ k. every (select_law k) 16) 2 select_table drive hd in
    let law = every-at (select_law drive) 16 row n hn in ground (arith, law)

-- The registers of a command on a sector below 2 ^ 28 of a drive of number 0 or 1.
pub command_writes-registers :
    (device : AtaDevice) (lba command : ℕ)
    → lba < 2 ^ 28
    → device.drive < 2
    → (let base = ata_base_port device.channel in
        command_writes device lba command
        ≡ (base + 6, 0xE0 + 16 * device.drive + lba / 2 ^ 24)
          ∷ (base + 2, 1)
          ∷ (base + 3, lba % 256)
          ∷ (base + 4, lba / 256 % 256)
          ∷ (base + 5, lba / 65536 % 256)
          ∷ (base + 7, command)
          ∷ [])
command_writes-registers device lba command small hd =
    let base = ata_base_port device.channel in
    let top : lba / 2 ^ 24 % 2 ^ 4 ≡ lba / 2 ^ 24 = omega (arith, small) in
    let register = select_register device.drive (lba / 2 ^ 24 % 2 ^ 4) hd (omega arith) in
    let select = register ∙ ap (λ n. 0xE0 + 16 * device.drive + n) top in
    λ i.
      (base + 6, select i)
      ∷ (base + 2, 1)
      ∷ (base + 3, lba % 256)
      ∷ (base + 4, lba / 256 % 256)
      ∷ (base + 5, lba / 65536 % 256)
      ∷ (base + 7, command)
      ∷ []
