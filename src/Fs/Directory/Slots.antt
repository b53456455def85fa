-- ===== src/Fs/Directory/Slots.antt =====
-- The operations that look for one entry and write its sector back, or that only look. Pointers
-- other than the disk are there. A result `none` stands for a search that does not end.
use miyar_os.Base.{
  ℕ, zero, suc, ◌+◌, ◌*◌, Bool, true, false, not, ◌&&◌, ◌||◌, Option, none, some, List, ◌==◌, ltb,
  if◌then◌else◌, update,
}
use miyar_os.Fs.Disk.{Drive, Sector}
use miyar_os.Fs.Fat32.{
  Volume, cluster_to_sector, write_sector, allocate_cluster, append_cluster, free_cluster_chain,
}
use miyar_os.Fs.Path.{same_string}
use miyar_os.Fs.Path
use miyar_os.Fs.Directory.Entry.{Entry, attributes, attr_lfn, deleted_mark, entry_at, put_entry}
use miyar_os.Fs.Directory.Name.{directory_get_name}
use miyar_os.Fs.Directory.Scan.{searched, scan_sectors, scan_clusters}

-- `name[0]`
abbrev pub first_byte : Sector → ℕ → ℕ
first_byte s i = s (32 * i)

-- The entries that the loops leave with `continue`: deleted ones, parts of long names, and the
-- volume's label, where the attributes are that one bit.
unfoldable pub is_skipped : Sector → ℕ → Bool
is_skipped s i =
    (first_byte s i == deleted_mark)
    || ((attributes (entry_at s i) == attr_lfn) || (attributes (entry_at s i) == 8))

-- `memcmp(a, b, n) == 0`
unfoldable pub same_bytes : (n i : ℕ) → (a b : ℕ → ℕ) → Bool
same_bytes zero i a b = true
same_bytes (suc n) i a b = (a i == b i) && same_bytes n (i + 1) a b

unfoldable pub visit_used : (lba : ℕ) → Sector → (i : ℕ) → Option Bool
visit_used lba s i =
    let name = directory_get_name (entry_at s i) in
    if first_byte s i == 0
    then some true
    else if is_skipped s i
    then none
    else if same_string name Path.dot || same_string name Path.dots
    then none
    else some false

module _ (D : Drive) (disk : ℕ) where
  -- A free slot: the end mark, or a deleted entry.
  unfoldable pub visit_free :
      Volume D → Entry → (lba : ℕ) → Sector → (i : ℕ) → Option (Bool × Volume D)
  visit_free v e lba s i =
      if (first_byte s i == 0) || (first_byte s i == deleted_mark)
      then some (write_sector D disk v lba (put_entry s i e))
      else none

  unfoldable pub directory_write_entry : Volume D → (cluster : ℕ) → Entry → Bool × Volume D
  directory_write_entry v cluster e =
      elim (scan_sectors D disk (false, v) (visit_free v e) v.fs.sectors_per_cluster
        (cluster_to_sector v.fs cluster) v) [ none ↦ (false, v) | some r ↦ r ]

  -- After the last cluster: one more is taken for the directory.
  unfoldable pub extend_directory :
      (fuel : ℕ) → Volume D → (start : ℕ) → Entry → Option (Bool × Volume D)
  extend_directory fuel v start e =
      let (new, v1) = allocate_cluster D disk v in
      if new == 0 then some (false, v1) else elim (append_cluster D disk fuel v1 start new) [
        | none ↦ none
        | some (ok, v2) ↦ some (
            if ok
            then directory_write_entry v2 new e
            else (false, (free_cluster_chain D disk v2 new).1))
      ]

  unfoldable pub directory_create_entry_in_cluster :
      (fuel : ℕ) → Volume D → (cluster : ℕ) → Entry → Option (Bool × Volume D)
  directory_create_entry_in_cluster fuel v cluster e =
      if disk == 0
      then some (false, v)
      else if ltb cluster 2
      then some (false, v)
      else elim (scan_clusters D disk (false, v) (visit_free v e) fuel cluster v) [
        | none ↦ none
        | some none ↦ extend_directory fuel v cluster e
        | some (some r) ↦ some r
      ]

  -- The search for an entry in use that passes a test, up to the end mark.
  unfoldable pub visit_match :
      Volume D
      → (test : Entry → Bool) → (change : Sector → ℕ → Sector) → (lba : ℕ) → Sector
      → (i : ℕ) → Option (Bool × Volume D)
  visit_match v test change lba s i =
      if first_byte s i == 0
      then some (false, v)
      else if is_skipped s i
      then none
      else if test (entry_at s i)
      then some (write_sector D disk v lba (change s i))
      else none

  unfoldable pub change_entry :
      (fuel : ℕ)
      → Volume D
      → (cluster : ℕ) → (test : Entry → Bool) → (change : Sector → ℕ → Sector)
      → Option (Bool × Volume D)
  change_entry fuel v cluster test change =
      if disk == 0
      then some (false, v)
      else searched (false, v)
          (scan_clusters D disk (false, v) (visit_match v test change) fuel cluster v)

  -- `strcmp(filename, name) == 0`
  abbrev pub has_name : List ℕ → Entry → Bool
  has_name name e = same_string (directory_get_name e) name

  unfoldable pub directory_delete_in_cluster :
      (fuel : ℕ) → Volume D → (cluster : ℕ) → (name : List ℕ) → Option (Bool × Volume D)
  directory_delete_in_cluster fuel v cluster name =
      change_entry fuel v cluster (has_name name) (λ s i. update s (32 * i) deleted_mark)

  unfoldable pub directory_update_entry :
      (fuel : ℕ) → Volume D → (parent_cluster : ℕ) → Entry → Option (Bool × Volume D)
  directory_update_entry fuel v parent_cluster e =
      change_entry fuel v parent_cluster (λ x. same_bytes 11 0 x e) (λ s i. put_entry s i e)

  unfoldable pub directory_rename_entry :
      (fuel : ℕ)
      → Volume D
      → (parent_cluster : ℕ) → (old_name : List ℕ) → Entry
      → Option (Bool × Volume D)
  directory_rename_entry fuel v parent_cluster old_name e =
      change_entry fuel v parent_cluster (has_name old_name) (λ s i. put_entry s i e)

  unfoldable pub directory_is_empty : (fuel : ℕ) → Volume D → (cluster : ℕ) → Option Bool
  directory_is_empty fuel v cluster =
      if disk == 0
      then some false
      else searched true (scan_clusters D disk false visit_used fuel cluster v)

  unfoldable pub directory_move_entry :
      (fuel : ℕ)
      → Volume D
      → (source_cluster destination_cluster : ℕ) → (old_name : List ℕ) → Entry
      → Option (Bool × Volume D)
  directory_move_entry fuel v source_cluster destination_cluster old_name e =
      if disk == 0
      then some (false, v)
      else elim (directory_create_entry_in_cluster fuel v destination_cluster e) [
        | none ↦ none
        | some (created, v1) ↦
            if not created
            then some (false, v1)
            else elim (directory_delete_in_cluster fuel v1 source_cluster old_name) [
              | none ↦ none
              | some (deleted, v2) ↦
                  if deleted
                  then some (true, v2)
                  else elim (directory_delete_in_cluster fuel v2 destination_cluster
                      (directory_get_name e)) [ none ↦ none | some (again, v3) ↦ some (false, v3) ]
            ]
      ]
