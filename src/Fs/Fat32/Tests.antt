-- ===== src/Fs/Fat32/Tests.antt =====
-- The table's theorems on a drive that is an array of sectors.
use miyar_os.Base.{
  [], ◌∷◌, ◌≤◌, ℕ, ◌%◌, ◌^◌, ◌≡◌, ◌≢◌, refl, true, false, arith, ◌==◌, if◌then◌else◌,
}
use miyar_os.Fs.Disk.{Sector, disk_read, disk_write, ata_read_sector, ata_write_sector}
use miyar_os.Fs.Disk.Memory.{memory, memory-IsReliable}
use miyar_os.Fs.Fat32.{
  free_cluster_chain, free_loop, Fat32, Volume, read_fat_entry, write_fat_entry, write_sector,
  find_free_from, find_free_cluster, allocate_cluster, zero_cluster, zero_sectors,
  cluster_to_sector, cluster_eoc,
}
use miyar_os.Fs.Fat32.Geometry.{IsGeometry}
use miyar_os.Fs.Fat32.Entry.{write_fat_entry_lem}
use miyar_os.Fs.Fat32.Free.{FatChain, final, link, Freed, free_cluster_chain-Freed}
use miyar_os.Fs.Fat32.Chain.{Allocated, allocate_cluster-Allocated}

-- Two sectors of table after the boot sector, four clusters of one sector, the first of them taken.
abbrev geometry : Fat32
geometry = record {
  bytes_per_sector = 512;
  sectors_per_cluster = 1;
  reserved_sector_count = 1;
  fat_count = 1;
  fat_size = 2;
  root_cluster = 2;
  first_data_sector = 3;
  fat_start_sector = 1;
  total_clusters = 4;
}

abbrev sectors : ℕ → Sector
sectors lba i = if lba == 1 then if i == 8 then 5 else 0 else 7

abbrev volume : Volume memory
volume = record {
  ata = record { present = true; sector_count = 100; device = sectors };
  fs = geometry;
  heap = record { header = λ i. record { size = 0; free = false }; offset = 0 };
}

geometry-IsGeometry : IsGeometry geometry
geometry-IsGeometry = record {
  bytes = refl;
  clusters = omega arith;
  table = omega arith;
  size = omega arith;
  sectors = omega arith;
}

abbrev written : Volume memory
written = (write_fat_entry memory 1 volume 3 cluster_eoc).1

written-run : write_fat_entry memory 1 volume 3 cluster_eoc ≡ (true, written)
unfolding write_fat_entry disk_read ata_read_sector disk_write ata_write_sector write_sector
written-run = refl

write_fat_entry_lem_example :
    (read_fat_entry memory 1 written 3 ≡ cluster_eoc % 2 ^ 28)
    × ((e : ℕ) → e ≢ 3 → read_fat_entry memory 1 written e ≡ read_fat_entry memory 1 volume e)
    × (written.fs ≡ volume.fs)
write_fat_entry_lem_example =
    write_fat_entry_lem memory-IsReliable 1 volume written 3 cluster_eoc geometry-IsGeometry
      written-run

abbrev allocated : Volume memory
allocated = (allocate_cluster memory 1 volume).1

allocated-run : allocate_cluster memory 1 volume ≡ (3, allocated)
unfolding allocate_cluster find_free_cluster find_free_from read_fat_entry write_fat_entry
    zero_cluster zero_sectors cluster_to_sector disk_read ata_read_sector disk_write
    ata_write_sector write_sector
allocated-run = refl

allocate_cluster-Allocated_example : Allocated memory-IsReliable 1 volume allocated 3
allocate_cluster-Allocated_example =
    allocate_cluster-Allocated memory-IsReliable 1 volume allocated 3 refl geometry-IsGeometry
      (omega arith) allocated-run

-- The chain of 2 and 3.
abbrev chained : Volume memory
chained = (write_fat_entry memory 1 written 2 3).1

chained-FatChain : FatChain 1 chained 2 (2 ∷ 3 ∷ [])
unfolding read_fat_entry write_fat_entry disk_read ata_read_sector disk_write ata_write_sector
    write_sector
chained-FatChain = link refl refl refl (final refl refl refl)

abbrev freed : Volume memory
freed = (free_cluster_chain memory 1 chained 2).1

freed-run : free_cluster_chain memory 1 chained 2 ≡ (true, freed)
unfolding free_cluster_chain free_loop read_fat_entry write_fat_entry disk_read ata_read_sector
    disk_write ata_write_sector write_sector
freed-run = refl

chained-IsGeometry : IsGeometry chained.fs
unfolding write_fat_entry disk_read ata_read_sector disk_write ata_write_sector write_sector
chained-IsGeometry = geometry-IsGeometry

few_clusters : 2 ≤ chained.fs.total_clusters
unfolding write_fat_entry disk_read ata_read_sector disk_write ata_write_sector write_sector
few_clusters = omega arith

free_cluster_chain-Freed_example : Freed 1 chained freed (2 ∷ 3 ∷ [])
free_cluster_chain-Freed_example =
    free_cluster_chain-Freed memory-IsReliable 1 chained-IsGeometry chained-FatChain
      ((omega arith, tt), (tt, tt)) few_clusters freed-run
