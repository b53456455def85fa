-- ===== src/Fs/Fat32.antt =====
-- kernel/fs/fat32.c: the file allocation table, over a disk.
pub mod Geometry
pub mod Entry
pub mod Find
pub mod Chain
pub mod Free
mod Tests
use miyar_os.Base.{
  ℕ, zero, suc, ◌+◌, ◌-◌, ◌*◌, ◌/◌, ◌%◌, ◌^◌, Bool, true, false, not, ◌&&◌, ◌||◌, Option, none,
  some, List, [], ◌∷◌, ◌++◌, ◌==◌, ltb, leb, if◌then◌else◌, update,
}
use miyar_os.Memory.Heap
use miyar_os.Memory.Heap.{Heap, stuck, returned}
use miyar_os.Fs.Disk.{Drive, Sector, Ata, disk_read, disk_write}
use miyar_os.Fs.Disk.Sector.{get16, get32, put32}

abbrev pub invalid_cluster : ℕ
invalid_cluster = 0xFFFFFFFF

abbrev pub cluster_free : ℕ
cluster_free = 0

abbrev pub cluster_eoc : ℕ
cluster_eoc = 0x0FFFFFFF

abbrev pub cluster_last : ℕ
cluster_last = 0x0FFFFFF8

-- `fat32_filesystem_t`
pub record Fat32 : Type 0 where
  pub bytes_per_sector : ℕ
  pub sectors_per_cluster : ℕ
  pub reserved_sector_count : ℕ
  pub fat_count : ℕ
  pub fat_size : ℕ
  pub root_cluster : ℕ
  pub first_data_sector : ℕ
  pub fat_start_sector : ℕ
  pub total_clusters : ℕ

-- "FAT32   ", as `memcmp` compares it.
is_fat32 : Sector → Bool
is_fat32 s =
    (s 82 == b'F')
    && ((s 83 == b'A')
        && ((s 84 == b'T')
            && ((s 85 == b'3')
                && ((s 86 == b'2') && ((s 87 == b' ') && ((s 88 == b' ') && (s 89 == b' ')))))))

-- The boot sector's fields that `fat32_detect` keeps, and what it computes from them. The product
-- of the two FAT sizes and the differences are of `uint32_t`.
fields : Sector → Fat32
fields s =
    let first_data = (get16 s 14 + s 16 * get32 s 36) % 2 ^ 32 in
    record {
      bytes_per_sector = get16 s 11;
      sectors_per_cluster = s 13;
      reserved_sector_count = get16 s 14;
      fat_count = s 16;
      fat_size = get32 s 36;
      root_cluster = get32 s 44;
      first_data_sector = first_data;
      fat_start_sector = get16 s 14;
      total_clusters = (get32 s 32 + 2 ^ 32 - first_data) % 2 ^ 32 / s 13;
    }

-- The checks of `fat32_detect` on the boot sector.
unfoldable pub parse_boot : Sector → Option Fat32
unfolding is_fat32 fields
parse_boot s =
    if not (s 66 == 0x28) && not (s 66 == 0x29)
    then none
    else if not (is_fat32 s)
    then none
    else if not (get16 s 11 == 512)
    then none
    else if s 13 == 0
    then none
    else if s 16 == 0
    then none
    else if get32 s 36 == 0
    then none
    else some (fields s)

unfoldable pub cluster_to_sector : Fat32 → ℕ → ℕ
cluster_to_sector fs cluster =
    if ltb cluster 2
    then 0
    else (fs.first_data_sector + (cluster - 2) * fs.sectors_per_cluster) % 2 ^ 32

-- `cluster < 2 || cluster >= fat32_fs.total_clusters + 2`, negated
abbrev pub in_table : Fat32 → ℕ → Bool
in_table fs cluster = not (ltb cluster 2 || leb ((fs.total_clusters + 2) % 2 ^ 32) cluster)

-- The sector of the table that holds a cluster's entry, and the offset in it.
abbrev pub fat_sector : Fat32 → ℕ → ℕ
fat_sector fs cluster = (fs.fat_start_sector + cluster * 4 % 2 ^ 32 / fs.bytes_per_sector) % 2 ^ 32

abbrev pub fat_offset : Fat32 → ℕ → ℕ
fat_offset fs cluster = cluster * 4 % 2 ^ 32 % fs.bytes_per_sector

module _ (D : Drive) where
  -- The disk, `fat32_fs`, and the heap that `fat32_allocate_cluster_chain` uses.
  pub record Volume : Type 0 where
    pub ata : Ata D
    pub fs : Fat32
    pub heap : Heap

  module _ (disk : ℕ) where
    unfoldable pub read_fat_entry : Volume → ℕ → ℕ
    read_fat_entry v cluster =
        if disk == 0
        then invalid_cluster
        else if not (in_table v.fs cluster)
        then invalid_cluster
        else elim (disk_read D disk v.ata (fat_sector v.fs cluster)) [
          | none ↦ invalid_cluster
          | some s ↦ get32 s (fat_offset v.fs cluster) % 2 ^ 28
        ]

    unfoldable pub next_cluster : Volume → ℕ → ℕ
    next_cluster v cluster =
        let next = read_fat_entry v cluster in
        if disk == 0
        then invalid_cluster
        else if leb cluster_last next
        then invalid_cluster
        else next

    -- The loop of `fat32_find_free_cluster`, `rounds` short of its end.
    unfoldable pub find_free_from : (rounds cluster : ℕ) → Volume → ℕ
    find_free_from zero cluster v = 0
    find_free_from (suc n) cluster v =
        let rest = find_free_from n (cluster + 1) v in
        if read_fat_entry v cluster == cluster_free then cluster else rest

    unfoldable pub find_free_cluster : Volume → ℕ
    find_free_cluster v =
        if disk == 0 then 0 else find_free_from ((v.fs.total_clusters + 2) % 2 ^ 32 - 2) 2 v

    -- `(old & 0xF0000000) | (value & 0x0FFFFFFF)`
    abbrev pub merge_entry : (old value : ℕ) → ℕ
    merge_entry old value = old / 2 ^ 28 * 2 ^ 28 + value % 2 ^ 28

    unfoldable pub write_sector : Volume → ℕ → Sector → Bool × Volume
    write_sector v lba s = let (ok, a) = disk_write D disk v.ata lba s in (ok, record v { ata = a })

    unfoldable pub write_fat_entry : Volume → (cluster value : ℕ) → Bool × Volume
    unfolding write_sector
    write_fat_entry v cluster value =
        if disk == 0
        then (false, v)
        else if not (in_table v.fs cluster)
        then (false, v)
        else elim (disk_read D disk v.ata (fat_sector v.fs cluster)) [
          | none ↦ (false, v)
          | some s ↦ write_sector v (fat_sector v.fs cluster) (
              put32 s (fat_offset v.fs cluster)
                (merge_entry (get32 s (fat_offset v.fs cluster)) value))
        ]

    -- The loop of `fat32_zero_cluster` over the sectors of a cluster.
    unfoldable pub zero_sectors : (rounds lba : ℕ) → Volume → Bool × Volume
    unfolding write_sector
    zero_sectors zero lba v = (true, v)
    zero_sectors (suc n) lba v =
        let (ok, v') = write_sector v (lba % 2 ^ 32) (λ i. 0) in
        let rest = zero_sectors n (lba + 1) v' in if ok then rest else (false, v')

    unfoldable pub zero_cluster : Volume → ℕ → Bool × Volume
    unfolding cluster_to_sector
    zero_cluster v cluster =
        let first = cluster_to_sector v.fs cluster in
        if disk == 0
        then (false, v)
        else if first == 0
        then (false, v)
        else zero_sectors v.fs.sectors_per_cluster first v

    -- The cluster, 0 for none.
    unfoldable pub allocate_cluster : Volume → ℕ × Volume
    allocate_cluster v =
        let cluster = find_free_cluster v in
        let (marked, v1) = write_fat_entry v cluster cluster_eoc in
        let (zeroed, v2) = zero_cluster v1 cluster in
        if cluster == 0
        then (0, v)
        else if not marked
        then (0, v1)
        else if not zeroed
        then (0, (write_fat_entry v2 cluster cluster_free).1)
        else (cluster, v2)

    -- The `rollback` label: every cluster of the array is freed, whether the write succeeds or not.
    rollback : List ℕ → Volume → Volume
    rollback [] v = v
    rollback (c ∷ cs) v = rollback cs (write_fat_entry v c cluster_free).1

    -- The loop of `fat32_allocate_cluster_chain`: the array so far, the first and the previous
    -- cluster. 0 stands for the jump to `rollback`.
    chain_loop : (rounds : ℕ) → (allocated : List ℕ) → (first previous : ℕ) → Volume → ℕ × Volume
    unfolding rollback
    chain_loop zero allocated first previous v = (first, v)
    chain_loop (suc n) allocated first previous v =
        let (new, v1) = allocate_cluster v in
        let stored = allocated ++ new ∷ [] in
        let (linked, v2) = write_fat_entry v1 previous new in
        let start = if first == 0 then new else first in
        let begun = chain_loop n stored start new v1 in
        let longer = chain_loop n stored start new v2 in
        if new == 0
        then (0, rollback allocated v1)
        else if previous == 0
        then begun
        else if linked
        then longer
        else (0, rollback stored v2)

    -- The array comes from `kmalloc`; a walk of the heap that does not end gives `none`.
    pub allocate_cluster_chain : Volume → (cluster_count : ℕ) → Option (ℕ × Volume)
    unfolding chain_loop
    allocate_cluster_chain v cluster_count =
        if cluster_count == 0
        then some (0, v)
        else elim (Heap.kmalloc v.heap (cluster_count * 4 % 2 ^ 32)) [
          | stuck ↦ none
          | returned none h ↦ some (0, record v { heap = h })
          | returned (some at) h ↦
              let (first, v') = chain_loop cluster_count [] 0 0 (record v { heap = h }) in
              some (first, record v' { heap = Heap.kfree v'.heap (some at) })
        ]

    -- The loop of `fat32_free_cluster_chain`. `left` is `total_clusters - freed`, so the test of
    -- the counter fails at 0, and the loop ends on a cyclic chain too.
    unfoldable pub free_loop : (left cluster : ℕ) → Volume → Bool × Volume
    free_loop zero cluster v = (not (in_table v.fs cluster), v)
    free_loop (suc left) cluster v =
        let next = read_fat_entry v cluster in
        let (freed, v') = write_fat_entry v cluster cluster_free in
        let rest = free_loop left next v' in
        if not (in_table v.fs cluster)
        then (true, v)
        else if next == invalid_cluster
        then (false, v)
        else if not freed
        then (false, v')
        else if leb cluster_last next
        then (true, v')
        else rest

    unfoldable pub free_cluster_chain : Volume → ℕ → Bool × Volume
    free_cluster_chain v first = free_loop v.fs.total_clusters first v

    -- The buffer of `fat32_read_cluster`, sector by sector.
    unfoldable pub read_sectors : (rounds lba : ℕ) → Volume → Option (List Sector)
    read_sectors zero lba v = some []
    read_sectors (suc n) lba v =
        let rest = read_sectors n (lba + 1) v in
        elim (disk_read D disk v.ata (lba % 2 ^ 32)) [
          | none ↦ none
          | some s ↦ elim rest [ none ↦ none | some ss ↦ some (s ∷ ss) ]
        ]

    unfoldable pub read_cluster : Volume → ℕ → Option (List Sector)
    unfolding read_sectors cluster_to_sector
    read_cluster v cluster =
        read_sectors v.fs.sectors_per_cluster (cluster_to_sector v.fs cluster) v

    -- The walk of `fat32_append_cluster` to the last cluster of a chain. A cyclic chain has none,
    -- and uses up any fuel.
    unfoldable pub last_cluster : (fuel current : ℕ) → Volume → Option ℕ
    last_cluster zero current v = none
    last_cluster (suc fuel) current v =
        let next = next_cluster v current in
        let rest = last_cluster fuel next v in
        if next == invalid_cluster then some current else rest

    append_after : Volume → (current cluster : ℕ) → Bool × Volume
    append_after v current cluster =
        let (linked, v1) = write_fat_entry v current cluster in
        let (ended, v2) = write_fat_entry v1 cluster cluster_eoc in
        if not linked
        then (false, v1)
        else if not ended
        then (false, v2)
        else zero_cluster v2 cluster

    pub append_cluster : (fuel : ℕ) → Volume → (chain cluster : ℕ) → Option (Bool × Volume)
    unfolding last_cluster append_after
    append_cluster fuel v chain cluster =
        if disk == 0
        then some (false, v)
        else if ltb chain 2 || ltb cluster 2
        then some (false, v)
        else elim (last_cluster fuel chain v) [
          | none ↦ none
          | some current ↦ some (append_after v current cluster)
        ]

    -- `fat32_detect`: the volume keeps its fields if a check fails.
    pub detect : Volume → Bool × Volume
    unfolding parse_boot
    detect v = if disk == 0 then (false, v) else elim (disk_read D disk v.ata 0) [
      | none ↦ (false, v)
      | some s ↦ elim (parse_boot s) [ none ↦ (false, v) | some fs ↦ (true, record v { fs = fs }) ]
    ]
