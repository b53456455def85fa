-- ===== src/Drivers/Ata/Tests.antt =====
-- A controller that records what it is sent and is always ready with data.
use miyar_os.Base.{ℕ, ◌≡◌, refl, true, some, List, [], ◌∷◌, ◌++◌, map, arith}
use miyar_os.Drivers.Ata.{Ports, AtaDevice, ata_write_sector}
use miyar_os.Drivers.Ata.Registers.{History}
use miyar_os.Drivers.Ata.Select.{ata_write_sector-log}

abbrev recorder : Ports
recorder = record {
  State = List (ℕ × ℕ);
  inb = λ port s. (0x48, s);
  inw = λ port s. (7, s);
  outb = λ port value s. s ++ ((port, value) ∷ []);
  outw = λ port value s. s ++ ((port, value) ∷ []);
}

recorder-History : History recorder
recorder-History = record {
  log = λ s. s;
  log-inb = λ port s. refl;
  log-outb = λ port value s. refl;
  log-outw = λ port value s. refl;
}

abbrev device : AtaDevice
device = record { present = true; channel = 1; drive = 1; model = λ j. 0; sector_count = 0x1000000 }

-- What the write of two words sends.
abbrev sent : List (ℕ × ℕ)
sent =
    (0x176, 0xF0)
    ∷ (0x172, 1)
    ∷ (0x173, 0x21)
    ∷ (0x174, 0x43)
    ∷ (0x175, 0x65)
    ∷ (0x177, 0x30)
    ∷ (0x170, 1)
    ∷ (0x170, 2)
    ∷ (0x177, 0xE7)
    ∷ []

written : ata_write_sector recorder 3 device 0x654321 (1 ∷ 2 ∷ []) [] ≡ some (true, sent)
unfolding ata_write_sector
written = refl

ata_write_sector-log_example :
    recorder-History.log sent
    ≡ recorder-History.log []
      ++ (((0x176, 0xF0)
            ∷ (0x172, 1)
            ∷ (0x173, 0x21)
            ∷ (0x174, 0x43)
            ∷ (0x175, 0x65)
            ∷ (0x177, 0x30)
            ∷ [])
          ++ (map (λ w. (0x170, w)) (1 ∷ 2 ∷ []) ++ ((0x177, 0xE7) ∷ [])))
ata_write_sector-log_example =
    ata_write_sector-log recorder recorder-History 3 device 0x654321 (1 ∷ 2 ∷ []) [] sent refl
      (omega arith) (omega arith) written
