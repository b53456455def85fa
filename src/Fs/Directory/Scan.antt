-- ===== src/Fs/Directory/Scan.antt =====
-- The three nested loops that go through a directory: clusters of the chain, sectors of a cluster,
-- entries of a sector. What is done with an entry is an argument: it gives the result of the whole
-- search, or `none` to go on.
use miyar_os.Base.{ℕ, zero, suc, ◌+◌, ◌%◌, ◌^◌, Option, none, some, or_else, ltb, if◌then◌else◌}
use miyar_os.Fs.Disk.{Drive, Sector, disk_read}
use miyar_os.Fs.Fat32.{Volume, cluster_to_sector, next_cluster, cluster_last}
use miyar_os.Fs.Directory.Entry.{entries_per_sector}

-- The result of a cluster, or of the clusters after it.
abbrev pub carry_on {ℓ} : {A : Type ℓ} → Option A → Option (Option A) → Option (Option A)
carry_on none rest = rest
carry_on (some r) rest = some (some r)

-- The result of a search, or what the end of the chain gives.
abbrev pub settle {ℓ} : {A : Type ℓ} → (ended : A) → Option A → A
settle ended none = ended
settle ended (some r) = r

-- The same, where the scan ends.
abbrev pub searched {ℓ} : {A : Type ℓ} → (ended : A) → Option (Option A) → Option A
searched ended none = none
searched ended (some o) = some (settle ended o)

unfoldable pub scan_entries {ℓ} : {A : Type ℓ} (rounds i : ℕ) → (visit : ℕ → Option A) → Option A
scan_entries zero i visit = none
scan_entries (suc n) i visit = or_else (visit i) (scan_entries n (i + 1) visit)

module _ {ℓ} {A : Type ℓ} (D : Drive) (disk : ℕ) (failed : A)
    (visit : (lba : ℕ) → Sector → (i : ℕ) → Option A) where
  unfoldable pub scan_sectors : (rounds lba : ℕ) → Volume D → Option A
  scan_sectors zero lba v = none
  scan_sectors (suc n) lba v = elim (disk_read D disk v.ata (lba % 2 ^ 32)) [
    | none ↦ some failed
    | some s ↦
        or_else (scan_entries entries_per_sector 0 (visit (lba % 2 ^ 32) s))
          (scan_sectors n (lba + 1) v)
  ]

  -- `some none` is the end of the chain, and `none` the end of the fuel: a chain with a cycle and
  -- no end mark keeps the loop going.
  unfoldable pub scan_clusters : (fuel cluster : ℕ) → Volume D → Option (Option A)
  scan_clusters zero cluster v = none
  scan_clusters (suc fuel) cluster v =
      let rest = scan_clusters fuel (next_cluster D disk v cluster) v in
      let here = scan_sectors v.fs.sectors_per_cluster (cluster_to_sector v.fs cluster) v in
      if ltb cluster cluster_last then carry_on here rest else some none
