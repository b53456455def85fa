-- ===== src/Fs/Fat32/Chain.antt =====
-- Zeroing a cluster, and taking one for a file.
use mathlib.Core.Path.{subst}
use miyar_os.Base.{
  ℕ, zero, suc, ◌+◌, ◌-◌, ◌*◌, ◌%◌, ◌^◌, ◌<◌, ◌≤◌, ◌≡◌, ◌≢◌, ◌⊎◌, refl, sym, ap, ◌∙◌, inl, inr,
  true, false, Option, some, ◌==◌, ltb, Bool-cases, arith,
}
use miyar_os.Fs.Disk.{Drive, Sector, sector_size, IsReliable, disk_read, disk_write}
use miyar_os.Fs.Disk.Laws.{disk_read-disk_write, disk_read-disk_write_other}
use miyar_os.Fs.Fat32.{
  Fat32, Volume, read_fat_entry, write_fat_entry, write_sector, zero_sectors, zero_cluster,
  cluster_to_sector, find_free_cluster, allocate_cluster, cluster_eoc,
}
use miyar_os.Fs.Fat32.Geometry.{IsGeometry}
use miyar_os.Fs.Fat32.Entry.{read_fat_entry-kept, write_fat_entry_lem}
use miyar_os.Fs.Fat32.Find.{IsFree, IsLowest, find_free_cluster-IsLowest}

module _ {D : Drive} (reliable : IsReliable D) (disk : ℕ) where
  -- What a sector of a volume reads as.
  abbrev sector_of : Volume D → ℕ → Option Sector
  sector_of v lba = disk_read D disk v.ata lba

  abbrev IsZeroed : Volume D → ℕ → Type 0
  IsZeroed v lba = (t : Sector) × (sector_of v lba ≡ some t) × ((i : ℕ) → i < sector_size → t i ≡ 0)

  -- The volume `v'` is `v` with the `n` sectors from `lba` on zeroed.
  record Zeroed (n lba : ℕ) (v v' : Volume D) : Type 0 where
    fs : v'.fs ≡ v.fs
    zeroed : (k : ℕ) → lba ≤ k → k < lba + n → IsZeroed v' k
    kept : (k : ℕ) → (k < lba) ⊎ (lba + n ≤ k) → sector_of v' k ≡ sector_of v k

  -- One round of the loop that goes on.
  zero_sectors-goes :
      (n lba : ℕ) (v v' : Volume D)
      → lba < 2 ^ 32
      → zero_sectors D disk (suc n) lba v ≡ (true, v')
      → (v1 : Volume D) × (disk_write D disk v.ata lba (λ i. 0) ≡ (true, v1.ata))
        × (v1.fs ≡ v.fs)
        × (zero_sectors D disk n (lba + 1) v1 ≡ (true, v'))
  unfolding zero_sectors write_sector
  zero_sectors-goes n lba v v' small h =
      let out = disk_write D disk v.ata (lba % 2 ^ 32) (λ i. 0) in
      let whole : lba % 2 ^ 32 ≡ lba = omega (arith, small) in
      elim (Bool-cases out.0) [
        | inr failed ↦ absurd (ground arith)
        | inl ok ↦ (
          record v { ata = out.1 },
          ap (λ l. disk_write D disk v.ata l (λ i. 0)) (sym whole) ∙ (λ i. (ok i, out.1)),
          refl,
          rw ok at h,
        )
      ]

  outside : (lba n k : ℕ) → (k < lba) ⊎ (lba + suc n ≤ k) → (k < lba + 1) ⊎ (lba + 1 + n ≤ k)
  outside lba n k (inl below) = inl (omega (arith, below))
  outside lba n k (inr above) = inr (omega (arith, above))

  distinct : (lba n k : ℕ) → (k < lba) ⊎ (lba + suc n ≤ k) → k ≢ lba
  distinct lba n k (inl below) = omega (arith, below)
  distinct lba n k (inr above) = omega (arith, above)

  zero_sectors-Zeroed :
      (n lba : ℕ) (v v' : Volume D)
      → lba + n ≤ 2 ^ 32
      → zero_sectors D disk n lba v ≡ (true, v')
      → Zeroed n lba v v'
  unfolding zero_sectors
  zero_sectors-Zeroed zero lba v v' small h =
      let same : v ≡ v' = λ i. (h i).1 in
      subst (Zeroed 0 lba v) same (record {
        fs = refl;
        zeroed = λ k lo hi. absurd (omega (arith, lo, hi));
        kept = λ k out. refl;
      })
  zero_sectors-Zeroed (suc n) lba v v' small h =
      let (v1, wrote, same, rest) = zero_sectors-goes n lba v v' (omega (arith, small)) h in
      let tail = zero_sectors-Zeroed n (lba + 1) v1 v' (omega (arith, small)) rest in
      let (t, got, blank) = disk_read-disk_write reliable disk v.ata v1.ata lba (λ i. 0) wrote in
      record {
        fs = tail.fs ∙ same;
        zeroed = λ k lo hi. elim (Bool-cases (k == lba)) [
          | inl here ↦
              let is : k ≡ lba = ground arith in
              subst (IsZeroed v') (sym is) (t, tail.kept lba (inl (omega arith)) ∙ got, blank)
          | inr past ↦ tail.zeroed k (ground arith) (omega (arith, hi))
        ];
        kept = λ k out.
            tail.kept k (outside lba n k out)
            ∙ disk_read-disk_write_other reliable disk v.ata v1.ata lba k (λ i. 0) wrote
                (distinct lba n k out);
      }

  room : (a n s : ℕ) → a + 1 ≤ n → a * s + s ≤ n * s
  room a n s h = let whole : n ≡ a + 1 + (n - (a + 1)) = omega (arith, h) in rw whole (omega arith)

  -- The first sector of a cluster of the table, and the room up to 2^32.
  first_sector :
      {fs : Fat32} (g : IsGeometry fs) (c : ℕ)
      → 2 ≤ c
      → c < 2 + fs.total_clusters
      → (cluster_to_sector fs c ≡ fs.first_data_sector + (c - 2) * fs.sectors_per_cluster)
        × (fs.first_data_sector + (c - 2) * fs.sectors_per_cluster + fs.sectors_per_cluster
            ≤ 2 ^ 32)
  unfolding cluster_to_sector
  first_sector {fs} g c lo hi =
      let fits = room (c - 2) fs.total_clusters fs.sectors_per_cluster (omega (arith, lo, hi)) in
      let there : ltb c 2 ≡ false = ground arith in
      (rw there (omega (arith, fits, g.sectors, g.size)), (omega (arith, fits, g.sectors)))

  zero_cluster-goes :
      (v v' : Volume D) (c : ℕ)
      → zero_cluster D disk v c ≡ (true, v')
      → zero_sectors D disk v.fs.sectors_per_cluster (cluster_to_sector v.fs c) v ≡ (true, v')
  unfolding zero_cluster
  zero_cluster-goes v v' c h = elim (Bool-cases (disk == 0)) [
    | inl null ↦ absurd (ground arith)
    | inr given ↦ elim (Bool-cases (cluster_to_sector v.fs c == 0)) [
      | inl none_there ↦ absurd (ground arith)
      | inr there ↦ rw (given, there) at h
    ]
  ]

  -- The calls of an allocation that succeeds.
  allocate_cluster-goes :
      (v v' : Volume D) (c : ℕ)
      → c ≢ 0
      → allocate_cluster D disk v ≡ (c, v')
      → (v1 : Volume D) × (find_free_cluster D disk v ≡ c)
        × (write_fat_entry D disk v c cluster_eoc ≡ (true, v1))
        × (zero_cluster D disk v1 c ≡ (true, v'))
  unfolding allocate_cluster
  allocate_cluster-goes v v' c some_c h =
      let f = find_free_cluster D disk v in
      let w = write_fat_entry D disk v f cluster_eoc in
      let z = zero_cluster D disk w.1 f in
      elim (Bool-cases (f == 0)) [
        | inl nothing ↦ absurd (ground arith)
        | inr found ↦ elim (Bool-cases w.0) [
          | inr unmarked ↦ absurd (ground arith)
          | inl marked ↦ elim (Bool-cases z.0) [
            | inr dirty ↦ absurd (ground arith)
            | inl zeroed ↦
                let e : ◌≡◌ {A = ℕ × Volume D} (f, z.1) (c, v') = rw (found, marked, zeroed) at h in
                let is : f ≡ c = λ i. (e i).0 in
                (
                  w.1,
                  is,
                  ap (λ k. write_fat_entry D disk v k cluster_eoc) (sym is)
                      ∙ (λ i. (marked i, w.1)),
                  ap (λ k. zero_cluster D disk w.1 k) (sym is) ∙ (λ i. (zeroed i, (e i).1)),
                )
          ]
        ]
      ]

  -- The volume `v'` is `v` with the cluster `c` taken.
  pub record Allocated (v v' : Volume D) (c : ℕ) : Type 0 where
    pub inside : (2 ≤ c) × (c < 2 + v.fs.total_clusters)
    pub free : IsFree disk v c
    pub lowest : (e : ℕ) → 2 ≤ e → e < c → ¬ (IsFree disk v e)
    pub marked : read_fat_entry D disk v' c ≡ cluster_eoc
    pub others : (e : ℕ) → e ≢ c → read_fat_entry D disk v' e ≡ read_fat_entry D disk v e
    pub zeroed :
        (k : ℕ)
        → k < v.fs.sectors_per_cluster
        → IsZeroed v' (v.fs.first_data_sector + (c - 2) * v.fs.sectors_per_cluster + k)
    pub fs : v'.fs ≡ v.fs

  -- On a reliable drive that is there, with the geometry in order, an allocation that gives a
  -- cluster gives the lowest free cluster of the table: its entry then reads as the end of a chain,
  -- every other entry reads as before, all its sectors read as zeros, and the fields of the file
  -- system are as they were.
  pub allocate_cluster-Allocated :
      (v v' : Volume D) (c : ℕ)
      → (disk == 0) ≡ false
      → IsGeometry v.fs
      → c ≢ 0
      → allocate_cluster D disk v ≡ (c, v')
      → Allocated v v' c
  allocate_cluster-Allocated v v' c given g some_c h =
      let (v1, found, wrote, blank) = allocate_cluster-goes v v' c some_c h in
      let (marked, others, same) = write_fat_entry_lem reliable disk v v1 c cluster_eoc g wrote in
      elim (subst (IsLowest disk v v.fs.total_clusters 2) found
        (find_free_cluster-IsLowest disk v given g.clusters)) [
          | inl (nothing, _) ↦ absurd (some_c nothing)
          | inr (lo, hi, free, lowest) ↦
              let g1 : IsGeometry v1.fs = subst IsGeometry (sym same) g in
              let (at_first, fits) = first_sector g1 c lo (rw same hi) in
              let start = v.fs.first_data_sector + (c - 2) * v.fs.sectors_per_cluster in
              let z =
                zero_sectors-Zeroed v1.fs.sectors_per_cluster (cluster_to_sector v1.fs c) v1 v'
                  (rw at_first fits) (zero_cluster-goes v1 v' c blank) in
              let first : cluster_to_sector v1.fs c ≡ start =
                at_first ∙ ap (λ f. f.first_data_sector + (c - 2) * f.sectors_per_cluster) same in
              let kept : (e : ℕ) → read_fat_entry D disk v' e ≡ read_fat_entry D disk v1 e = λ e.
                read_fat_entry-kept reliable disk v1 v' e g1 z.fs
                  (λ k before. z.kept k (inl (rw first (omega (arith, (rw same at before)))))) in
              record {
                inside = (lo, hi);
                free = free;
                lowest = lowest;
                marked = kept c ∙ marked;
                others = λ e ne. kept e ∙ others e ne;
                zeroed = λ k small.
                    z.zeroed (start + k) (rw first (omega arith))
                      (rw (first, same) (omega (arith, small)));
                fs = z.fs ∙ same;
              }
        ]
