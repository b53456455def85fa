-- ===== src/Drivers/Ata/Select.antt =====
-- What the driver sends to the controller's ports for a sector.
use Prim.Native.Nat.{bit_or}
use mathlib.Core.List.{append-nil, append_assoc}
use mathlib.Core.Option.{some-injective, none-ne-some}
use miyar_os.Base.{
  ℕ, zero, suc, ◌+◌, ◌*◌, ◌/◌, ◌%◌, ◌^◌, ◌<◌, ◌≡◌, refl, sym, ap, ◌∙◌, inl, inr, Bool, true, false,
  not, ◌||◌, Option, none, some, List, [], ◌∷◌, ◌++◌, map, leb, Bool-cases, Option-cases, arith,
}
use miyar_os.Base.Bits.{bit_test}
use miyar_os.Drivers.Ata.{
  Ports, AtaDevice, ata_base_port, ata_read_status, ata_delay_400ns, wait_idle, ata_poll,
  ata_wait_ready, write_words, send_command, ata_read_sector, ata_write_sector,
}
use miyar_os.Drivers.Ata.Registers.{History, command_writes, command_writes-registers}

module _ (P : Ports) (H : History P) where
  ata_delay_400ns-log : (channel : ℕ) (s : P.State) → H.log (ata_delay_400ns P channel s) ≡ H.log s
  unfolding ata_delay_400ns
  ata_delay_400ns-log channel s =
      let port = ata_base_port channel + 7 in
      let one = (P.inb port s).1 in
      let two = (P.inb port one).1 in
      let three = (P.inb port two).1 in
      H.log-inb port three ∙ H.log-inb port two ∙ H.log-inb port one ∙ H.log-inb port s

  wait_idle-busy :
      (fuel channel : ℕ) (s : P.State)
      → bit_test (ata_read_status P channel s).0 7 ≡ true
      → wait_idle P (suc fuel) channel s ≡ wait_idle P fuel channel (ata_read_status P channel s).1
  unfolding wait_idle
  wait_idle-busy fuel channel s busy = rw (busy) refl

  wait_idle-idle :
      (fuel channel : ℕ) (s : P.State)
      → bit_test (ata_read_status P channel s).0 7 ≡ false
      → wait_idle P (suc fuel) channel s ≡ some (ata_read_status P channel s)
  unfolding wait_idle
  wait_idle-idle fuel channel s idle = rw (idle) refl

  wait_idle-log :
      (fuel channel : ℕ) (s t : P.State) (status : ℕ)
      → wait_idle P fuel channel s ≡ some (status, t)
      → H.log t ≡ H.log s
  unfolding wait_idle ata_read_status
  wait_idle-log zero channel s t status h = absurd (ground (arith, h))
  wait_idle-log (suc fuel) channel s t status h =
      let port = ata_base_port channel + 7 in
      elim (Bool-cases (bit_test (P.inb port s).0 7)) [
        | inl busy ↦
            wait_idle-log fuel channel (P.inb port s).1 t status
              (sym (wait_idle-busy fuel channel s busy) ∙ h)
            ∙ H.log-inb port s
        | inr idle ↦
            let ended = some-injective _ _ (sym (wait_idle-idle fuel channel s idle) ∙ h) in
            ap H.log (sym (ap (λ (r : ℕ × P.State). r.1) ended)) ∙ H.log-inb port s
      ]

  -- One more byte.
  log-pushed :
      (port value : ℕ) (s : P.State) (before sent : List (ℕ × ℕ))
      → H.log s ≡ before ++ sent
      → H.log (P.outb port value s) ≡ before ++ (sent ++ ((port, value) ∷ []))
  log-pushed port value s before sent h =
      H.log-outb port value s
      ∙ ap (λ (l : List (ℕ × ℕ)). l ++ ((port, value) ∷ [])) h
      ∙ append_assoc before sent ((port, value) ∷ [])

  send_command-log :
      (device : AtaDevice) (lba command : ℕ) (s : P.State)
      → H.log (send_command P device lba command s) ≡ H.log s ++ command_writes device lba command
  unfolding send_command
  send_command-log device lba command s =
      let base = ata_base_port device.channel in
      let v6 = bit_or (bit_or 0xE0 (device.drive * 2 ^ 4)) (lba / 2 ^ 24 % 2 ^ 4) in
      let selected = ata_delay_400ns P device.channel (P.outb (base + 6) v6 s) in
      let one : H.log selected ≡ H.log s ++ ((base + 6, v6) ∷ []) =
        ata_delay_400ns-log device.channel (P.outb (base + 6) v6 s) ∙ H.log-outb (base + 6) v6 s in
      log-pushed _ _ _ (H.log s) _ (
        log-pushed _ _ _ (H.log s) _ (
          log-pushed _ _ _ (H.log s) _ (
            log-pushed _ _ _ (H.log s) _
              (log-pushed (base + 2) 1 selected (H.log s) ((base + 6, v6) ∷ []) one))))

  write_words-log :
      (words : List ℕ) (base : ℕ) (s : P.State)
      → H.log (write_words P words base s) ≡ H.log s ++ map (λ w. (base, w)) words
  unfolding write_words
  write_words-log [] base s = sym (append-nil (H.log s))
  write_words-log (w ∷ ws) base s =
      write_words-log ws base (P.outw base w s)
      ∙ ap (λ (l : List (ℕ × ℕ)). l ++ map (λ w. (base, w)) ws) (H.log-outw base w s)
      ∙ append_assoc (H.log s) ((base, w) ∷ []) (map (λ w. (base, w)) ws)

  -- What `ata_poll` and `ata_wait_ready` have in common.
  after_wait : (verdict : ℕ → Bool) → (fuel channel : ℕ) → P.State → Option (Bool × P.State)
  after_wait verdict fuel channel s =
      elim (wait_idle P fuel channel (ata_delay_400ns P channel s)) [
        | none ↦ none
        | some (status, t) ↦ some (verdict status, t)
      ]

  after_wait-log :
      (verdict : ℕ → Bool) (fuel channel : ℕ) (s t : P.State) (ok : Bool)
      → after_wait verdict fuel channel s ≡ some (ok, t)
      → H.log t ≡ H.log s
  unfolding after_wait
  after_wait-log verdict fuel channel s t ok h =
      elim (Option-cases (wait_idle P fuel channel (ata_delay_400ns P channel s))) [
        | inl busy ↦
            let stuck : after_wait verdict fuel channel s ≡ none = rw (after_wait, busy) refl in
            absurd (none-ne-some _ (sym stuck ∙ h))
        | inr ((status, u), idle) ↦
            let done : after_wait verdict fuel channel s ≡ some (verdict status, u) =
              rw (after_wait, idle) refl in
            let ended = some-injective _ _ (sym done ∙ h) in
            ap H.log (sym (ap (λ (r : Bool × P.State). r.1) ended))
            ∙ wait_idle-log fuel channel (ata_delay_400ns P channel s) u status idle
            ∙ ata_delay_400ns-log channel s
      ]

  ata_poll-log :
      (fuel channel : ℕ) (s t : P.State) (ok : Bool)
      → ata_poll P fuel channel s ≡ some (ok, t)
      → H.log t ≡ H.log s
  unfolding ata_poll after_wait
  ata_poll-log fuel channel s t ok h = after_wait-log _ fuel channel s t ok h

  ata_wait_ready-log :
      (fuel channel : ℕ) (s t : P.State) (ok : Bool)
      → ata_wait_ready P fuel channel s ≡ some (ok, t)
      → H.log t ≡ H.log s
  unfolding ata_wait_ready after_wait
  ata_wait_ready-log fuel channel s t ok h = after_wait-log _ fuel channel s t ok h

  -- A write that was accepted: it polled with success, and then waited.
  write_went :
      (fuel : ℕ) (device : AtaDevice) (lba : ℕ) (words : List ℕ) (s t : P.State)
      → (not device.present || leb device.sector_count lba) ≡ false
      → ata_write_sector P fuel device lba words s ≡ some (true, t)
      → (u : P.State) × (ata_poll P fuel device.channel (send_command P device lba 0x30 s)
          ≡ some (true, u))
        × (ata_wait_ready P fuel device.channel (
              P.outb
                (ata_base_port device.channel + 7)
                0xE7
                (write_words P words (ata_base_port device.channel) u))
            ≡ some (true, t))
  unfolding ata_write_sector
  write_went fuel device lba words s t inside h =
      elim (Option-cases (ata_poll P fuel device.channel (send_command P device lba 0x30 s))) [
        | inl busy ↦
            let stuck : ata_write_sector P fuel device lba words s ≡ none =
              rw (ata_write_sector, inside, busy) refl in
            absurd (none-ne-some _ (sym stuck ∙ h))
        | inr ((false, u), polled) ↦
            let failed : ata_write_sector P fuel device lba words s ≡ some (false, u) =
              rw (ata_write_sector, inside, polled) refl in
            absurd (
              ground
                (arith, ap (λ (r : Bool × P.State). r.0) (some-injective _ _ (sym failed ∙ h))))
        | inr ((true, u), polled) ↦
            let went : ata_write_sector P fuel device lba words s ≡ _ =
              rw (ata_write_sector, inside, polled) refl in
            (u, polled, sym went ∙ h)
      ]

  -- A write that succeeds, to a drive of number 0 or 1 that is there and to a sector of it below 2
  -- ^ 28, has written to the ports, in this order and nothing else: the drive and head register at
  -- base + 6, 1 sector to base + 2, the low three bytes of the sector's number to base + 3, base +
  -- 4 and base + 5, the command WRITE SECTORS (0x30) to base + 7, the words to base, and the
  -- command FLUSH CACHE (0xE7) to base + 7. The drive and head register has the number of the drive
  -- in bit 4, the top four of the 28 bits below it, and the bits of an LBA transfer above.
  pub ata_write_sector-log :
      (fuel : ℕ) (device : AtaDevice) (lba : ℕ) (words : List ℕ) (s t : P.State)
      → (not device.present || leb device.sector_count lba) ≡ false
      → lba < 2 ^ 28
      → device.drive < 2
      → ata_write_sector P fuel device lba words s ≡ some (true, t)
      → (let base = ata_base_port device.channel in
          H.log t
          ≡ H.log s
            ++ (((base + 6, 0xE0 + 16 * device.drive + lba / 2 ^ 24)
                  ∷ (base + 2, 1)
                  ∷ (base + 3, lba % 256)
                  ∷ (base + 4, lba / 256 % 256)
                  ∷ (base + 5, lba / 65536 % 256)
                  ∷ (base + 7, 0x30)
                  ∷ [])
                ++ (map (λ w. (base, w)) words ++ ((base + 7, 0xE7) ∷ []))))
  ata_write_sector-log fuel device lba words s t inside small hd h =
      let base = ata_base_port device.channel in
      let command = command_writes device lba 0x30 in
      let data_sent = map (λ w. (base, w)) words in
      let flush : List (ℕ × ℕ) = (base + 7, 0xE7) ∷ [] in
      let (u, polled, waited) = write_went fuel device lba words s t inside h in
      let chosen =
        ata_poll-log fuel device.channel (send_command P device lba 0x30 s) u true polled
        ∙ send_command-log device lba 0x30 s in
      let sent =
        write_words-log words base u
        ∙ ap (λ (l : List (ℕ × ℕ)). l ++ data_sent) chosen
        ∙ append_assoc (H.log s) command data_sent in
      let flushed =
        log-pushed (base + 7) 0xE7 (write_words P words base u) (H.log s) (command ++ data_sent)
          sent in
      ata_wait_ready-log fuel device.channel (P.outb (base + 7) 0xE7 (write_words P words base u)) t
        true waited
      ∙ flushed
      ∙ ap (λ (l : List (ℕ × ℕ)). H.log s ++ l) (append_assoc command data_sent flush)
      ∙ ap (λ (l : List (ℕ × ℕ)). H.log s ++ (l ++ (data_sent ++ flush)))
          (command_writes-registers device lba 0x30 small hd)

  -- A transfer to or from a drive that is not there, or past its last sector, fails and sends
  -- nothing.
  ata_write_sector-refused :
      (fuel : ℕ) (device : AtaDevice) (lba : ℕ) (words : List ℕ) (s : P.State)
      → (not device.present || leb device.sector_count lba) ≡ true
      → (ata_write_sector P fuel device lba words s ≡ some (false, s))
        × (ata_read_sector P fuel device lba s ≡ some (none, s))
  unfolding ata_write_sector ata_read_sector
  ata_write_sector-refused fuel device lba words s out =
      (rw (ata_write_sector, out) refl, rw (ata_read_sector, out) refl)
