-- ===== src/Fs/Fat32/Entry.antt =====
-- Reading and writing one entry of the table.
use miyar_os.Base.{
  ℕ, ◌+◌, ◌%◌, ◌^◌, ◌<◌, ◌≤◌, ◌≡◌, ◌≢◌, ◌⊎◌, sym, ap, ◌∙◌, inl, inr, Bool, true, false, some, ◌==◌,
  Bool-cases, Option-cases, arith,
}
use miyar_os.Fs.Disk.{Drive, Sector, sector_size, IsReliable, disk_read, disk_write}
use miyar_os.Fs.Disk.Sector.{get32, put32, get32-put32_mod, get32-put32_other}
use miyar_os.Fs.Disk.Laws.{disk_read-disk_write, disk_read-disk_write_other}
use miyar_os.Fs.Fat32.Geometry.{IsGeometry, place, places-apart}
use miyar_os.Fs.Fat32.{
  Volume, in_table, fat_sector, fat_offset, merge_entry, read_fat_entry, write_fat_entry,
  write_sector, invalid_cluster,
}

module _ {D : Drive} (reliable : IsReliable D) (disk : ℕ) where
  -- A write of an entry that succeeds has read a sector and written it back.
  record Written (v v' : Volume D) (c value : ℕ) : Type 0 where
    old : Sector
    read : disk_read D disk v.ata (fat_sector v.fs c) ≡ some old
    write :
        disk_write D disk v.ata
          (fat_sector v.fs c)
          (put32 old (fat_offset v.fs c) (merge_entry D disk (get32 old (fat_offset v.fs c)) value))
        ≡ (true, v'.ata)
    fs : v'.fs ≡ v.fs
    given : (disk == 0) ≡ false
    inside : in_table v.fs c ≡ true

  write-Written :
      (v v' : Volume D) (c value : ℕ)
      → write_fat_entry D disk v c value ≡ (true, v')
      → Written v v' c value
  unfolding write_fat_entry write_sector
  write-Written v v' c value e = elim (Bool-cases (disk == 0)) [
    | inl null ↦ absurd (ground arith)
    | inr given ↦ elim (Bool-cases (in_table v.fs c)) [
      | inr outside ↦ absurd (ground arith)
      | inl inside ↦ elim (Option-cases (disk_read D disk v.ata (fat_sector v.fs c))) [
        | inl failed ↦ absurd (ground arith)
        | inr (s, got) ↦
            let new =
              put32 s (fat_offset v.fs c)
                (merge_entry D disk (get32 s (fat_offset v.fs c)) value) in
            let out = disk_write D disk v.ata (fat_sector v.fs c) new in
            let e' : ◌≡◌ {A = Bool × Volume D} (out.0, record v { ata = out.1 }) (true, v') =
              rw (given, inside, got) at e in
            record {
              old = s;
              read = got;
              write = λ i. ((e' i).0, (e' i).1.ata);
              fs = sym (λ i. (e' i).1.fs);
              given = given;
              inside = inside;
            }
      ]
    ]
  ]

  -- What an entry reads as, where its sector does.
  read_fat_entry-some :
      (v : Volume D) (c : ℕ) (t : Sector)
      → (disk == 0) ≡ false
      → in_table v.fs c ≡ true
      → disk_read D disk v.ata (fat_sector v.fs c) ≡ some t
      → read_fat_entry D disk v c ≡ get32 t (fat_offset v.fs c) % 2 ^ 28
  unfolding read_fat_entry
  read_fat_entry-some v c t given inside got = rw (given, inside, got)

  get32-same :
      (s t : Sector) (o : ℕ)
      → ((i : ℕ) → i < sector_size → t i ≡ s i)
      → o + 4 ≤ sector_size
      → get32 t o ≡ get32 s o
  get32-same s t o same h = rw (
    same o (omega (arith, h)),
    same (o + 1) (omega (arith, h)),
    same (o + 2) (omega (arith, h)),
    same (o + 3) (omega (arith, h)),
  )

  -- An entry that was written.
  pub write_fat_entry-read :
      (v v' : Volume D) (c value : ℕ)
      → IsGeometry v.fs
      → write_fat_entry D disk v c value ≡ (true, v')
      → read_fat_entry D disk v' c ≡ value % 2 ^ 28
  write_fat_entry-read v v' c value g e =
      let w = write-Written v v' c value e in
      let (_, oc, _) = place g c w.inside in
      let old = get32 w.old (fat_offset v.fs c) in
      let (t, got, same) =
        disk_read-disk_write reliable disk v.ata v'.ata (fat_sector v.fs c)
          (put32 w.old (fat_offset v.fs c) (merge_entry D disk old value)) w.write in
      let got' : disk_read D disk v'.ata (fat_sector v'.fs c) ≡ some t = rw w.fs got in
      let inside' : in_table v'.fs c ≡ true = rw w.fs w.inside in
      let there = read_fat_entry-some v' c t w.given inside' got' in
      there
      ∙ ap (λ f. get32 t (fat_offset f c) % 2 ^ 28) w.fs
      ∙ ap (λ x. x % 2 ^ 28)
          (get32-same _ t (fat_offset v.fs c) same (omega (arith, oc))
            ∙ get32-put32_mod w.old (fat_offset v.fs c) (merge_entry D disk old value))
      ∙ omega arith

  read_fat_entry-outside :
      (v : Volume D) (c : ℕ) → in_table v.fs c ≡ false → read_fat_entry D disk v c ≡ invalid_cluster
  unfolding read_fat_entry
  read_fat_entry-outside v c outside = elim (Bool-cases (disk == 0)) [
    | inl null ↦ rw null
    | inr given ↦ rw (given, outside)
  ]

  -- The entry of a volume whose sector reads alike.
  read_fat_entry-alike :
      (v v' : Volume D) (c : ℕ)
      → v'.fs ≡ v.fs
      → disk_read D disk v'.ata (fat_sector v.fs c) ≡ disk_read D disk v.ata (fat_sector v.fs c)
      → read_fat_entry D disk v' c ≡ read_fat_entry D disk v c
  unfolding read_fat_entry
  read_fat_entry-alike v v' c same alike =
      (λ i. read_fat_entry D disk (record v' { fs = same i }) c) ∙ rw alike

  -- The entries depend on the sectors before the data only.
  pub read_fat_entry-kept :
      (v v' : Volume D) (c : ℕ)
      → IsGeometry v.fs
      → v'.fs ≡ v.fs
      → ((k : ℕ)
          → k < v.fs.first_data_sector
          → disk_read D disk v'.ata k ≡ disk_read D disk v.ata k)
      → read_fat_entry D disk v' c ≡ read_fat_entry D disk v c
  read_fat_entry-kept v v' c g same kept = elim (Bool-cases (in_table v.fs c)) [
    | inr outside ↦
        read_fat_entry-outside v' c (rw same outside) ∙ sym (read_fat_entry-outside v c outside)
    | inl inside ↦
        let (_, _, before) = place g c inside in
        read_fat_entry-alike v v' c same (kept (fat_sector v.fs c) before)
  ]

  -- An entry with bytes of the written sector apart from the written ones.
  one_sector :
      (v v' : Volume D) (c value e : ℕ)
      → IsGeometry v.fs
      → Written v v' c value
      → in_table v.fs e ≡ true
      → fat_sector v.fs e ≡ fat_sector v.fs c
      → (fat_offset v.fs c + 4 ≤ fat_offset v.fs e) ⊎ (fat_offset v.fs e + 4 ≤ fat_offset v.fs c)
      → read_fat_entry D disk v' e ≡ read_fat_entry D disk v e
  one_sector v v' c value e g w inside one apart =
      let (_, oe, _) = place g e inside in
      let new = merge_entry D disk (get32 w.old (fat_offset v.fs c)) value in
      let (t, got, same) =
        disk_read-disk_write reliable disk v.ata v'.ata (fat_sector v.fs c)
          (put32 w.old (fat_offset v.fs c) new) w.write in
      let after = read_fat_entry-some v' e t w.given (rw w.fs inside) (
        ap (λ f. disk_read D disk v'.ata (fat_sector f e)) w.fs
        ∙ ap (disk_read D disk v'.ata) one
        ∙ got) in
      let before =
        read_fat_entry-some v e w.old w.given inside (ap (disk_read D disk v.ata) one ∙ w.read) in
      after
      ∙ ap (λ f. get32 t (fat_offset f e) % 2 ^ 28) w.fs
      ∙ ap (λ x. x % 2 ^ 28)
          (get32-same _ t (fat_offset v.fs e) same (omega (arith, oe))
            ∙ get32-put32_other w.old (fat_offset v.fs c) (fat_offset v.fs e) new apart)
      ∙ sym before

  pub write_fat_entry-other :
      (v v' : Volume D) (c value e : ℕ)
      → IsGeometry v.fs
      → write_fat_entry D disk v c value ≡ (true, v')
      → e ≢ c
      → read_fat_entry D disk v' e ≡ read_fat_entry D disk v e
  write_fat_entry-other v v' c value e g h ne =
      let w = write-Written v v' c value h in
      elim (Bool-cases (in_table v.fs e)) [
        | inr outside ↦
            read_fat_entry-outside v' e (rw w.fs outside) ∙ sym (read_fat_entry-outside v e outside)
        | inl inside ↦ elim (Bool-cases (fat_sector v.fs e == fat_sector v.fs c)) [
          | inr far ↦ read_fat_entry-alike v v' e w.fs (
              disk_read-disk_write_other reliable disk v.ata v'.ata (fat_sector v.fs c)
                (fat_sector v.fs e) _ w.write (ground arith))
          | inl near ↦
              let one : fat_sector v.fs e ≡ fat_sector v.fs c = ground arith in
              elim (places-apart g c e w.inside inside (λ q. ne (sym q))) [
                | inl far ↦ absurd (far one)
                | inr apart ↦ one_sector v v' c value e g w inside one apart
              ]
        ]
      ]

  -- On a reliable drive, with the geometry in order, a write of a table entry that succeeds is read
  -- back without its top four bits, leaves what every other cluster number reads as it was, whether
  -- that cluster shares the sector or not, and does not change the fields of the file system.
  pub write_fat_entry_lem :
      (v v' : Volume D) (c value : ℕ)
      → IsGeometry v.fs
      → write_fat_entry D disk v c value ≡ (true, v')
      → (read_fat_entry D disk v' c ≡ value % 2 ^ 28)
        × ((e : ℕ) → e ≢ c → read_fat_entry D disk v' e ≡ read_fat_entry D disk v e)
        × (v'.fs ≡ v.fs)
  write_fat_entry_lem v v' c value g h = (
    write_fat_entry-read v v' c value g h,
    λ e ne. write_fat_entry-other v v' c value e g h ne,
    (write-Written v v' c value h).fs,
  )
