-- ===== src/Fs/Disk/Laws.antt =====
-- What a successful write of a reliable drive shows to later reads.
use miyar_os.Base.{
  ℕ, ◌<◌, ◌≡◌, ◌≢◌, sym, ◌∙◌, inl, inr, Bool, true, false, some, ◌==◌, leb, Bool-cases, arith,
}
use miyar_os.Fs.Disk.{
  Drive, Sector, sector_size, IsReliable, Ata, ata_read_sector, ata_write_sector, disk_read,
  disk_write,
}

module _ {D : Drive} where
  -- A write that succeeds has reached the drive, and so does a read of the same disk.
  pub record Accepted (disk : ℕ) (a a' : Ata D) (lba : ℕ) (s : Sector) : Type 0 where
    pub disk_some : (disk == 0) ≡ false
    pub present : a.present ≡ true
    pub inside : leb a.sector_count lba ≡ false
    pub written : D.write a.device lba s ≡ (true, a'.device)
    pub present' : a'.present ≡ a.present
    pub count' : a'.sector_count ≡ a.sector_count

  disk_write-Accepted :
      (disk : ℕ) (a a' : Ata D) (lba : ℕ) (s : Sector)
      → disk_write D disk a lba s ≡ (true, a')
      → Accepted disk a a' lba s
  unfolding disk_write ata_write_sector
  disk_write-Accepted disk a a' lba s e = elim (Bool-cases (disk == 0)) [
    | inl null ↦ absurd (ground arith)
    | inr given ↦ elim (Bool-cases a.present) [
      | inr absent ↦ absurd (ground arith)
      | inl here ↦ elim (Bool-cases (leb a.sector_count lba)) [
        | inl past ↦ absurd (ground arith)
        | inr inside ↦
            let e' : ◌≡◌ {A = Bool × Ata D}
                (
                  (D.write a.device lba s).0,
                  record a { present = true; device = (D.write a.device lba s).1 },
                )
                (true, a') =
              rw (given, here, inside) at e in
            record {
              disk_some = given;
              present = here;
              inside = inside;
              written = λ i. ((e' i).0, (e' i).1.device);
              present' = sym (λ i. (e' i).1.present) ∙ sym here;
              count' = sym (λ i. (e' i).1.sector_count);
            }
      ]
    ]
  ]

  -- What a read of the disk comes to, where the disk is there and the sector inside.
  read-through :
      (disk : ℕ) (a : Ata D) (lba : ℕ)
      → (disk == 0) ≡ false
      → a.present ≡ true
      → leb a.sector_count lba ≡ false
      → disk_read D disk a lba ≡ D.read a.device lba
  unfolding disk_read ata_read_sector
  read-through disk a lba given here inside = rw (given, here, inside)

  -- A sector that was written successfully is read back.
  pub disk_read-disk_write :
      IsReliable D
      → (disk : ℕ) (a a' : Ata D) (lba : ℕ) (s : Sector) → disk_write D disk a lba s ≡ (true, a')
      → (t : Sector) × (disk_read D disk a' lba ≡ some t) × ((i : ℕ) → i < sector_size → t i ≡ s i)
  disk_read-disk_write r disk a a' lba s e =
      let w = disk_write-Accepted disk a a' lba s e in
      let (t, got, same) = r.read_written a.device a'.device lba s w.written in
      (
        t,
        read-through disk a' lba w.disk_some (w.present' ∙ w.present) (rw w.count' w.inside) ∙ got,
        same,
      )

  -- Every other sector reads as before.
  pub disk_read-disk_write_other :
      IsReliable D
      → (disk : ℕ) (a a' : Ata D) (lba other : ℕ) (s : Sector)
      → disk_write D disk a lba s ≡ (true, a')
      → other ≢ lba
      → disk_read D disk a' other ≡ disk_read D disk a other
  unfolding disk_read ata_read_sector
  disk_read-disk_write_other r disk a a' lba other s e ne =
      let w = disk_write-Accepted disk a a' lba s e in
      rw (w.present', w.count', r.read_other a.device a'.device lba other s w.written ne)
