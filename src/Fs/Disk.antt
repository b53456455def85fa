-- ===== src/Fs/Disk.antt =====
-- kernel/drivers/disk.c and the two transfers of kernel/drivers/ata.c, over a drive: what the ports
-- of the controller do is no code of the kernel, so it is a parameter.
pub mod Sector
pub mod Laws
pub mod Memory
use miyar_os.Base.{
  ℕ, ◌+◌, ◌*◌, ◌<◌, ◌≡◌, ◌≢◌, Bool, true, false, not, Option, none, some, ◌==◌, leb, if◌then◌else◌,
  update,
}

-- The 512 bytes of a sector, by offset.
abbrev pub Sector : Type 0
Sector = ℕ → ℕ

abbrev pub sector_size : ℕ
sector_size = 512

-- The drive's state, and the command sequences that read and write a sector. A read may fail; a
-- write says whether it succeeded, and a failed one may have changed the state.
pub record Drive : Type 1 where
  pub Device : Type 0
  pub read : Device → ℕ → Option Sector
  pub write : Device → ℕ → Sector → Bool × Device

-- What a drive promises: a sector that was written is read back, and the other sectors are as
-- before.
pub record IsReliable (D : Drive) : Type 0 where
  pub read_written :
      (d d' : D.Device) (lba : ℕ) (s : Sector)
      → D.write d lba s ≡ (true, d')
      → (t : Sector) × (D.read d' lba ≡ some t) × ((i : ℕ) → i < sector_size → t i ≡ s i)
  pub read_other :
      (d d' : D.Device) (lba other : ℕ) (s : Sector)
      → D.write d lba s ≡ (true, d')
      → other ≢ lba
      → D.read d' other ≡ D.read d other

module _ (D : Drive) where
  -- `ata_device_t`, with the drive behind it.
  pub record Ata : Type 0 where
    pub present : Bool
    pub sector_count : ℕ
    pub device : D.Device

  unfoldable pub ata_read_sector : Ata → ℕ → Option Sector
  ata_read_sector a lba =
      if not a.present then none else if leb a.sector_count lba then none else D.read a.device lba

  unfoldable pub ata_write_sector : Ata → ℕ → Sector → Bool × Ata
  ata_write_sector a lba s =
      let (ok, d) = D.write a.device lba s in
      if not a.present
      then (false, a)
      else if leb a.sector_count lba
      then (false, a)
      else (ok, record a { device = d })

  -- `disk` is the pointer, 0 for NULL. `none` and `false` stand for a result other than 0.
  unfoldable pub disk_read : (disk : ℕ) → Ata → ℕ → Option Sector
  unfolding ata_read_sector
  disk_read disk a lba = if disk == 0 then none else ata_read_sector a lba

  unfoldable pub disk_write : (disk : ℕ) → Ata → ℕ → Sector → Bool × Ata
  unfolding ata_write_sector
  disk_write disk a lba s = if disk == 0 then (false, a) else ata_write_sector a lba s

  -- `disk_get(0)` after `disk_init`: `disk` is the address of `disks[0]`, whose device is the
  -- first.
  unfoldable pub disk_get : (disk : ℕ) → Ata → ℕ
  disk_get disk a = if not a.present then 0 else disk
