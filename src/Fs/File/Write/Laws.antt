-- ===== src/Fs/File/Write/Laws.antt =====
-- What `file_write_cluster` writes is what `file_read_cluster` reads.
use miyar_os.Base.{
  ℕ, zero, suc, ◌+◌, ◌-◌, ◌*◌, ◌%◌, ◌^◌, ◌<◌, ◌≤◌, ◌≡◌, ◌≢◌, ◌⊎◌, inl, inr, refl, sym, ap, ◌∙◌,
  true, false, ◌&&◌, some, List, [], ◌∷◌, ◌==◌, ltb, leb, Bool-cases, arith,
}
use mathlib.Core.Path.{subst}
use native.Mathlib.Nat.{mod-eq_of_lt}
use miyar_os.Fs.Disk.{Drive, Sector, sector_size, IsReliable, disk_read, disk_write}
use miyar_os.Fs.Disk.Laws.{disk_read-disk_write, disk_read-disk_write_other}
use miyar_os.Fs.Fat32.{Volume, read_sectors, read_cluster, write_sector, cluster_to_sector}
use miyar_os.Fs.File.{place_sectors}
use miyar_os.Fs.File.Write.{write_sectors, file_write_cluster, file_read_cluster}

-- Sectors before a place are not touched.
place_sectors-before :
    (i : ℕ) (ss : List Sector) (buffer : ℕ → ℕ) (j : ℕ)
    → j < i * 512
    → place_sectors 512 i ss buffer j ≡ buffer j
unfolding place_sectors
place_sectors-before i [] buffer j before = refl
place_sectors-before i (s ∷ ss) buffer j before =
    let outside : leb (i * 512) j && ltb j (i * 512 + 512) ≡ false = ground arith in
    place_sectors-before (i + 1) ss _ j (omega (arith, before)) ∙ rw outside

-- A sector of the disk that holds the sector `i` of a buffer.
record ReadsAs {D : Drive} (disk : ℕ) (v : Volume D) (b : ℕ → ℕ) (lba i : ℕ) : Type 0 where
  sector : Sector
  read : disk_read D disk v.ata lba ≡ some sector
  bytes : (j : ℕ) → j < 512 → sector j ≡ b (i * 512 + j)

reads_at :
    {D : Drive} {disk : ℕ} {v : Volume D} {b : ℕ → ℕ} (lba lba' i i' : ℕ)
    → lba ≡ lba'
    → i ≡ i'
    → ReadsAs disk v b lba i
    → ReadsAs disk v b lba' i'
reads_at {D} {disk} {v} {b} lba lba' i i' p q r =
    subst (λ l. ReadsAs disk v b l i') p (subst (λ k. ReadsAs disk v b lba k) q r)

module _ {D : Drive} (reliable : IsReliable D) (disk : ℕ) where
  -- A sector that was written.
  write_sector-read :
      (v v' : Volume D) (lba : ℕ) (s : Sector)
      → write_sector D disk v lba s ≡ (true, v')
      → ((t : Sector) × (disk_read D disk v'.ata lba ≡ some t)
          × ((i : ℕ) → i < sector_size → t i ≡ s i))
        × ((other : ℕ) → other ≢ lba → disk_read D disk v'.ata other ≡ disk_read D disk v.ata other)
        × (v'.fs ≡ v.fs)
  unfolding write_sector
  write_sector-read v v' lba s e =
      let stored : disk_write D disk v.ata lba s ≡ (true, v'.ata) = λ i. ((e i).0, (e i).1.ata) in
      (
        disk_read-disk_write reliable disk v.ata v'.ata lba s stored,
        (λ other ne. disk_read-disk_write_other reliable disk v.ata v'.ata lba other s stored ne),
        sym (λ i. (e i).1.fs),
      )

  -- After the loop: what the sectors read as.
  record Stored (n i first : ℕ) (b : ℕ → ℕ) (v v' : Volume D) : Type 0 where
    fs : v'.fs ≡ v.fs
    others :
        (lba : ℕ)
        → (lba < first + i) ⊎ (first + i + n < lba + 1)
        → disk_read D disk v'.ata lba ≡ disk_read D disk v.ata lba
    inside : (k : ℕ) → k < n → ReadsAs disk v' b (first + i + k) (i + k)

  write_sectors-Stored :
      (n i first : ℕ) (b : ℕ → ℕ) (v v' : Volume D)
      → v.fs.bytes_per_sector ≡ 512
      → first + i + n ≤ 2 ^ 32
      → write_sectors D disk n i first b v ≡ (true, v')
      → Stored n i first b v v'
  unfolding write_sectors
  write_sectors-Stored zero i first b v v' bps room e =
      let same : v ≡ v' = λ j. (e j).1 in
      record {
        fs = sym (λ j. (same j).fs);
        others = λ lba outside. ap (λ a. disk_read D disk a lba) (sym (λ j. (same j).ata));
        inside = λ k past. absurd (omega (arith, past));
      }
  write_sectors-Stored (suc n) i first b v v' bps room e =
      let lba : (first + i) % 2 ^ 32 ≡ first + i = mod-eq_of_lt (omega (arith, room)) in
      let s : Sector = λ j. b (i * v.fs.bytes_per_sector + j) in
      let r = write_sector D disk v ((first + i) % 2 ^ 32) s in
      elim (Bool-cases r.0) [
        | inr failed ↦
            let run : write_sectors D disk (suc n) i first b v ≡ (false, r.1) =
              rw (write_sectors, failed) in
            let no_end = ap (λ x. x.0) (sym run ∙ e) in absurd (ground arith)
        | inl ok ↦
            let run : write_sectors D disk (suc n) i first b v
                ≡ write_sectors D disk n (i + 1) first b r.1 =
              rw (write_sectors, ok) in
            let (here, elsewhere, fs) =
              write_sector-read v r.1 ((first + i) % 2 ^ 32) s (λ j. (ok j, r.1)) in
            let later =
              write_sectors-Stored n (i + 1) first b r.1 v' (ap (λ f. f.bytes_per_sector) fs ∙ bps)
                (omega (arith, room)) (sym run ∙ e) in
            let first_one : ReadsAs disk v' b (first + i) i = record {
              sector = here.0;
              read =
                  later.others (first + i) (inl (omega arith))
                  ∙ ap (disk_read D disk r.1.ata) (sym lba)
                  ∙ here.1;
              bytes = λ j small. here.2 j small ∙ ap (λ size. b (i * size + j)) bps;
            } in
            record {
              fs = later.fs ∙ fs;
              others = λ other outside.
                  later.others other (ground arith) ∙ elsewhere other (ground arith);
              inside = λ k below. elim (Bool-cases (k == 0)) [
                | inl zeroth ↦
                    reads_at (first + i) (first + i + k) i (i + k) (ground arith) (ground arith)
                      first_one
                | inr next ↦
                    reads_at (first + (i + 1) + (k - 1)) (first + i + k) (i + 1 + (k - 1)) (i + k)
                      (ground arith) (ground arith) (later.inside (k - 1) (ground arith))
              ];
            }
      ]

  -- The sectors that are there, in a buffer.
  read_sectors-place :
      (n i lba : ℕ) (b : ℕ → ℕ) (v : Volume D)
      → lba + n ≤ 2 ^ 32
      → ((k : ℕ) → k < n → ReadsAs disk v b (lba + k) (i + k))
      → (ss : List Sector) × (read_sectors D disk n lba v ≡ some ss)
        × ((buffer : ℕ → ℕ) (j : ℕ)
            → i * 512 ≤ j
            → j < (i + n) * 512
            → place_sectors 512 i ss buffer j ≡ b j)
  unfolding read_sectors place_sectors
  read_sectors-place zero i lba b v room there =
      ([], refl, λ buffer j lo hi. absurd (omega (arith, lo, hi)))
  read_sectors-place (suc n) i lba b v room there =
      let r = there 0 (omega arith) in
      let same_lba : lba % 2 ^ 32 ≡ lba + 0 = mod-eq_of_lt (omega (arith, room)) ∙ omega arith in
      let got' : disk_read D disk v.ata (lba % 2 ^ 32) ≡ some r.sector =
        ap (disk_read D disk v.ata) same_lba ∙ r.read in
      let later : (k : ℕ) → k < n → ReadsAs disk v b (lba + 1 + k) (i + 1 + k) = λ k below.
        reads_at (lba + suc k) (lba + 1 + k) (i + suc k) (i + 1 + k) (omega arith) (omega arith)
          (there (suc k) (omega (arith, below))) in
      let (ss, read, placed) =
        read_sectors-place n (i + 1) (lba + 1) b v (omega (arith, room)) later in
      (
        r.sector ∷ ss,
        rw (read_sectors, got', read),
        λ buffer j lo hi. elim (Bool-cases (ltb j (i * 512 + 512))) [
          | inl here ↦
              let start : leb (i * 512) j ≡ true = ground arith in
              let place : (i + 0) * 512 + (j - i * 512) ≡ j = omega (arith, lo) in
              place_sectors-before (i + 1) ss _ j (ground arith)
              ∙ (rw (start, here) (r.bytes (j - i * 512) (ground arith) ∙ ap b place))
          | inr past ↦ placed _ j (ground arith) (omega (arith, hi))
        ],
      )

  cluster_sectors :
      (v v' : Volume D) (cluster : ℕ)
      → v'.fs ≡ v.fs
      → read_cluster D disk v' cluster
        ≡ read_sectors D disk v.fs.sectors_per_cluster (cluster_to_sector v.fs cluster) v'
  unfolding read_cluster
  cluster_sectors v v' cluster fs i =
      read_sectors D disk (fs i).sectors_per_cluster (cluster_to_sector (fs i) cluster) v'

  file_read_cluster-some :
      (v : Volume D) (cluster : ℕ) (ss : List Sector) (buffer : ℕ → ℕ)
      → disk == 0 ≡ false
      → read_cluster D disk v cluster ≡ some ss
      → file_read_cluster D disk v cluster buffer
        ≡ some (place_sectors v.fs.bytes_per_sector 0 ss buffer)
  unfolding file_read_cluster
  file_read_cluster-some v cluster ss buffer given got = rw (file_read_cluster, given, got)

  -- On a reliable drive with sectors of 512 bytes, and a cluster whose sectors are numbered within
  -- 32 bits: after `file_write_cluster` has succeeded, `file_read_cluster` of that cluster succeeds
  -- and its buffer has the bytes that were written.
  pub file_read_cluster-file_write_cluster :
      (v v' : Volume D) (cluster : ℕ) (source buffer : ℕ → ℕ)
      → v.fs.bytes_per_sector ≡ 512
      → cluster_to_sector v.fs cluster + v.fs.sectors_per_cluster ≤ 2 ^ 32
      → file_write_cluster D disk v cluster source ≡ (true, v')
      → (held : ℕ → ℕ) × (file_read_cluster D disk v' cluster buffer ≡ some held)
        × ((j : ℕ) → j < v.fs.sectors_per_cluster * 512 → held j ≡ source j)
  unfolding file_write_cluster
  file_read_cluster-file_write_cluster v v' cluster source buffer bps room e =
      elim (Bool-cases (disk == 0)) [
        | inl missing ↦ absurd (ground arith)
        | inr given ↦
            let n = v.fs.sectors_per_cluster in
            let first = cluster_to_sector v.fs cluster in
            let run : file_write_cluster D disk v cluster source
                ≡ write_sectors D disk n 0 first source v =
              rw (file_write_cluster, given) in
            let stored =
              write_sectors-Stored n 0 first source v v' bps (omega (arith, room)) (sym run ∙ e) in
            let there : (k : ℕ) → k < n → ReadsAs disk v' source (first + k) (0 + k) = λ k below.
              reads_at (first + 0 + k) (first + k) (0 + k) (0 + k) (omega arith) refl
                (stored.inside k below) in
            let (ss, read, placed) = read_sectors-place n 0 first source v' room there in
            let whole : read_cluster D disk v' cluster ≡ some ss =
              cluster_sectors v v' cluster stored.fs ∙ read in
            (
              place_sectors v'.fs.bytes_per_sector 0 ss buffer,
              file_read_cluster-some v' cluster ss buffer given whole,
              λ j below.
                  ap (λ size. place_sectors size 0 ss buffer j)
                    (ap (λ f. f.bytes_per_sector) stored.fs ∙ bps)
                  ∙ placed buffer j (omega arith) (omega (arith, below)),
            )
      ]
