-- ===== src/Drivers/Ata.antt =====
-- kernel/drivers/ata.c, command by command. What the controller does with its ports is no code of
-- the kernel: `Ports` is a parameter. A result `none` stands for a busy controller for longer than
-- the fuel.
pub mod Detect
pub mod Registers
pub mod Select
mod Tests
use Prim.Native.Nat.{bit_or}
use miyar_os.Base.{
  ℕ, zero, suc, ◌+◌, ◌*◌, ◌/◌, ◌%◌, ◌^◌, Bool, true, false, not, ◌||◌, Option, none, some, List, [],
  ◌∷◌, ◌++◌, ◌==◌, leb, if◌then◌else◌, update,
}
use miyar_os.Base.Bits.{bit_test}

-- The state behind the ports, and the four instructions that the driver uses.
pub record Ports : Type 1 where
  pub State : Type 0
  pub inb : (port : ℕ) → State → ℕ × State
  pub inw : (port : ℕ) → State → ℕ × State
  pub outb : (port value : ℕ) → State → State
  pub outw : (port value : ℕ) → State → State

-- `ata_device_t`; `size_mb`, which nothing uses, is left out. A channel and a drive are 0 or 1.
pub record AtaDevice : Type 0 where
  pub present : Bool
  pub channel : ℕ
  pub drive : ℕ
  pub model : ℕ → ℕ
  pub sector_count : ℕ

abbrev pub ata_base_port : (channel : ℕ) → ℕ
ata_base_port channel = if channel == 0 then 0x1F0 else 0x170

-- The words of a list, by offset.
unfoldable pub word_at : List ℕ → ℕ → ℕ
word_at [] i = 0
word_at (w ∷ ws) zero = w
word_at (w ∷ ws) (suc i) = word_at ws i

unfoldable pub ata_parse_identify : (identify_buffer : List ℕ) → AtaDevice → AtaDevice
ata_parse_identify words device = record device {
  model = λ j.
      if leb 40 j
      then if j == 40 then 0 else device.model j
      else if j % 2 == 0
      then word_at words (27 + j / 2) / 2 ^ 8 % 2 ^ 8
      else word_at words (27 + j / 2) % 2 ^ 8;
  sector_count = word_at words 61 * 2 ^ 16 + word_at words 60;
}

module _ (P : Ports) where
  unfoldable pub ata_read_status : (channel : ℕ) → P.State → ℕ × P.State
  ata_read_status channel = P.inb (ata_base_port channel + 7)

  unfoldable pub ata_delay_400ns : (channel : ℕ) → P.State → P.State
  ata_delay_400ns channel s =
      let read : P.State → P.State = λ u. (P.inb (ata_base_port channel + 7) u).1 in
      read (read (read (read s)))

  unfoldable pub ata_select_drive : (channel drive : ℕ) → P.State → P.State
  unfolding ata_delay_400ns
  ata_select_drive channel drive s =
      ata_delay_400ns channel (P.outb (ata_base_port channel + 6) (bit_or 0xA0 (drive * 2 ^ 4)) s)

  -- The status that ends the loop `while (status & ATA_SR_BSY)`.
  unfoldable pub wait_idle : (fuel channel : ℕ) → P.State → Option (ℕ × P.State)
  unfolding ata_read_status
  wait_idle zero channel s = none
  wait_idle (suc fuel) channel s =
      let (status, t) = ata_read_status channel s in
      let rest = wait_idle fuel channel t in if bit_test status 7 then rest else some (status, t)

  -- `ata_poll` and `ata_wait_ready`: whether the result is 0.
  unfoldable pub ata_poll : (fuel channel : ℕ) → P.State → Option (Bool × P.State)
  unfolding ata_delay_400ns wait_idle
  ata_poll fuel channel s = elim (wait_idle fuel channel (ata_delay_400ns channel s)) [
    | none ↦ none
    | some (status, t) ↦ some (
      if bit_test status 0 then false else if bit_test status 5 then false else bit_test status 3,
      t,
    )
  ]

  unfoldable pub ata_wait_ready : (fuel channel : ℕ) → P.State → Option (Bool × P.State)
  unfolding ata_delay_400ns wait_idle
  ata_wait_ready fuel channel s = elim (wait_idle fuel channel (ata_delay_400ns channel s)) [
    | none ↦ none
    | some (status, t) ↦ some (if bit_test status 0 then false else not (bit_test status 5), t)
  ]

  unfoldable pub ata_read_data : (base : ℕ) → P.State → ℕ × P.State
  ata_read_data = P.inw

  -- `count` words, in the order they are read.
  unfoldable pub read_words : (count base : ℕ) → P.State → List ℕ × P.State
  unfolding ata_read_data
  read_words zero base s = ([], s)
  read_words (suc n) base s =
      let (w, t) = ata_read_data base s in let (ws, u) = read_words n base t in (w ∷ ws, u)

  unfoldable pub write_words : List ℕ → (base : ℕ) → P.State → P.State
  write_words [] base s = s
  write_words (w ∷ ws) base s = write_words ws base (P.outw base w s)

  -- The registers of a command on a sector, and the command.
  unfoldable pub send_command : (device : AtaDevice) → (lba command : ℕ) → P.State → P.State
  unfolding ata_delay_400ns
  send_command device lba command s =
      let base = ata_base_port device.channel in
      let selected = ata_delay_400ns device.channel (
        P.outb (base + 6) (bit_or (bit_or 0xE0 (device.drive * 2 ^ 4)) (lba / 2 ^ 24 % 2 ^ 4)) s) in
      P.outb (base + 7) command (
        P.outb (base + 5) (lba / 2 ^ 16 % 2 ^ 8) (
          P.outb (base + 4) (lba / 2 ^ 8 % 2 ^ 8)
            (P.outb (base + 3) (lba % 2 ^ 8) (P.outb (base + 2) 1 selected))))

  -- `none` in the result stands for -1; the words are those of the buffer. The device and the
  -- buffer are there.
  unfoldable pub ata_read_sector :
      (fuel : ℕ) → AtaDevice → (lba : ℕ) → P.State → Option (Option (List ℕ) × P.State)
  unfolding send_command ata_poll read_words
  ata_read_sector fuel device lba s =
      if not device.present || leb device.sector_count lba
      then some (none, s)
      else elim (ata_poll fuel device.channel (send_command device lba 0x20 s)) [
        | none ↦ none
        | some (false, t) ↦ some (none, t)
        | some (true, t) ↦
            let (words, u) = read_words 256 (ata_base_port device.channel) t in some (some words, u)
      ]

  -- Whether the result is 0. `words` is the buffer's 256.
  unfoldable pub ata_write_sector :
      (fuel : ℕ) → AtaDevice → (lba : ℕ) → (words : List ℕ) → P.State → Option (Bool × P.State)
  unfolding send_command ata_poll ata_wait_ready write_words
  ata_write_sector fuel device lba words s =
      let base = ata_base_port device.channel in
      if not device.present || leb device.sector_count lba
      then some (false, s)
      else elim (ata_poll fuel device.channel (send_command device lba 0x30 s)) [
        | none ↦ none
        | some (false, t) ↦ some (false, t)
        | some (true, t) ↦
            ata_wait_ready fuel device.channel (P.outb (base + 7) 0xE7 (write_words words base t))
      ]
