-- ===== src/Drivers/Ata/Detect.antt =====
-- The search for drives: `ata_init`, `ata_identify`, `ata_detect_devices` and `ata_get_device`.
use miyar_os.Base.{
  ℕ, zero, suc, ◌+◌, Bool, true, false, not, Option, none, some, List, [], ◌∷◌, ◌==◌, leb, update,
  if◌then◌else◌, ◌>>=◌,
}
use miyar_os.Base.Bits.{bit_test}
use miyar_os.Drivers.Ata.{
  Ports, AtaDevice, ata_base_port, ata_read_status, ata_delay_400ns, ata_select_drive, wait_idle,
  read_words, ata_parse_identify,
}

zeros : ℕ → List ℕ
zeros zero = []
zeros (suc n) = 0 ∷ zeros n

module _ (P : Ports) where
  -- The static variables, and the ports.
  pub record Driver : Type 0 where
    pub ata_devices : ℕ → AtaDevice
    pub ata_identify_buffer : List ℕ
    pub ports : P.State

  -- `memset`: the fields of the four devices and the 256 words are 0.
  pub ata_init : Driver → Driver
  unfolding zeros
  ata_init d = record d {
    ata_devices = λ i.
        if leb 4 i
        then d.ata_devices i
        else record { present = false; channel = 0; drive = 0; model = λ j. 0; sector_count = 0 };
    ata_identify_buffer = zeros 256;
  }

  -- The index of the device, where there is one of the number.
  pub ata_get_device : (index : ℕ) → Driver → Option AtaDevice
  ata_get_device index d = if leb 4 index then none else some (d.ata_devices index)

  -- The loop that waits for data or an error: whether there is data.
  unfoldable pub wait_data : (fuel channel : ℕ) → P.State → Option (Bool × P.State)
  wait_data zero channel s = none
  wait_data (suc fuel) channel s =
      let (status, t) = ata_read_status P channel s in
      let rest = wait_data fuel channel t in
      if bit_test status 0
      then some (false, t)
      else if bit_test status 3
      then some (true, t)
      else rest

  -- The command, up to the first status.
  unfoldable pub ask_identify : (channel drive : ℕ) → P.State → P.State
  ask_identify channel drive s =
      let base = ata_base_port channel in
      P.outb (base + 7) 0xEC (
        P.outb (base + 5) 0 (
          P.outb (base + 4) 0 (
            P.outb (base + 3) 0 (
              P.outb (base + 2) 0
                (ata_delay_400ns P channel (ata_select_drive P channel drive s))))))

  -- `io_wait()`: a write to port 0x80.
  abbrev io_wait : P.State → P.State
  io_wait = P.outb 0x80 0

  -- The words that were read, `none` for the result 0. The second register is read only where the
  -- first is 0.
  unfoldable pub ata_identify :
      (fuel channel drive : ℕ) → P.State → Option (Option (List ℕ) × P.State)
  unfolding ask_identify wait_data
  ata_identify fuel channel drive s =
      let base = ata_base_port channel in
      let (status, t) = ata_read_status P channel (ask_identify channel drive s) in
      if status == 0 then some (none, t) else elim (wait_idle P fuel channel t) [
        | none ↦ none
        | some (idle, u) ↦
            let (mid, v) = P.inb (base + 4) u in
            let (high, w) = P.inb (base + 5) v in
            if not (mid == 0)
            then some (none, v)
            else if not (high == 0)
            then some (none, w)
            else elim (wait_data fuel channel (io_wait w)) [
              | none ↦ none
              | some (false, x) ↦ some (none, x)
              | some (true, x) ↦ let (words, y) = read_words P 256 base x in some (some words, y)
            ]
      ]

  -- A round of the two loops.
  unfoldable pub detect_device : (fuel index channel drive : ℕ) → Driver → Option Driver
  unfolding ata_identify
  detect_device fuel index channel drive d =
      let device = record (d.ata_devices index) { channel = channel; drive = drive } in
      elim (ata_identify fuel channel drive d.ports) [
        | none ↦ none
        | some (none, s) ↦ some (record d {
          ata_devices = update d.ata_devices index (record device { present = false });
          ports = s;
        })
        | some (some words, s) ↦ some (record {
          ata_devices =
              update d.ata_devices index
                (ata_parse_identify words (record device { present = true }));
          ata_identify_buffer = words;
          ports = s;
        })
      ]

  pub ata_detect_devices : (fuel : ℕ) → Driver → Option Driver
  unfolding detect_device
  ata_detect_devices fuel d = do
    first ← detect_device fuel 0 0 0 d
    second ← detect_device fuel 1 0 1 first
    third ← detect_device fuel 2 1 0 second
    detect_device fuel 3 1 1 third
