-- ===== src/Fs/Directory/Iterate.antt =====
-- A directory read entry by entry: `directory_t`, with `directory_open` and `directory_next`. The
-- callers stop at the first call that returns false, so what that call leaves in the record is left
-- out: `none` stands for false. An outer `none` stands for a loop that does not end.
use miyar_os.Base.{
  ℕ, zero, suc, ◌+◌, ◌-◌, ◌%◌, ◌^◌, Option, none, some, List, [], ◌∷◌, ◌==◌, ltb, if◌then◌else◌,
}
use miyar_os.Fs.Disk.{Drive, Sector, disk_read}
use miyar_os.Fs.Fat32.{Volume, cluster_to_sector, next_cluster, invalid_cluster}
use miyar_os.Fs.Path.{same_string}
use miyar_os.Fs.Directory.Entry.{
  Entry, attributes, attr_lfn, is_volume_id, deleted_mark, entry_at, entries_per_sector,
}
use miyar_os.Fs.Directory.Name.{directory_get_name}
use miyar_os.Fs.Directory.Scan.{scan_entries}

-- `directory_t`
pub record Directory : Type 0 where
  pub cluster : ℕ
  pub current_cluster : ℕ
  pub sector : Sector
  pub sector_index : ℕ
  pub entry_index : ℕ

-- What `directory_next` does with an entry: the end mark ends it, entries that are deleted, part of
-- a long name or a label are passed over, another is returned with the index after it.
unfoldable pub visit_next : Sector → (i : ℕ) → Option (Option (Entry × ℕ))
visit_next s i =
    let e = entry_at s i in
    if e 0 == 0
    then some none
    else if e 0 == deleted_mark
    then none
    else if attributes e == attr_lfn
    then none
    else if is_volume_id e
    then none
    else some (some (e, i + 1))

module _ (D : Drive) (disk : ℕ) where
  unfoldable pub directory_open : Volume D → (cluster : ℕ) → Option Directory
  directory_open v cluster =
      if disk == 0 then none else elim (disk_read D disk v.ata (cluster_to_sector v.fs cluster)) [
        | none ↦ none
        | some s ↦ some (record {
          cluster = cluster;
          current_cluster = cluster;
          sector = s;
          sector_index = 0;
          entry_index = 0;
        })
      ]

  pub directory_open_root : Volume D → Option Directory
  unfolding directory_open
  directory_open_root v = directory_open v v.fs.root_cluster

  -- The part of `directory_next` after the last entry of a sector.
  unfoldable pub load_next : Volume D → Directory → Option Directory
  load_next v d =
      let index = d.sector_index + 1 in
      let next = next_cluster D disk v d.current_cluster in
      if ltb index v.fs.sectors_per_cluster
      then elim (disk_read D disk v.ata
          ((cluster_to_sector v.fs d.current_cluster + index) % 2 ^ 32)) [
            | none ↦ none
            | some s ↦ some (record d { sector = s; sector_index = index; entry_index = 0 })
          ]
      else if next == invalid_cluster
      then none
      else elim (disk_read D disk v.ata (cluster_to_sector v.fs next)) [
        | none ↦ none
        | some s ↦
            some
              (record d { current_cluster = next; sector = s; sector_index = 0; entry_index = 0 })
      ]

  -- The fuel bounds the sectors that are read.
  unfoldable pub directory_next :
      (fuel : ℕ) → Volume D → Directory → Option (Option (Entry × Directory))
  directory_next zero v d = none
  directory_next (suc fuel) v d =
      elim (scan_entries (entries_per_sector - d.entry_index) d.entry_index (visit_next d.sector)) [
        | some none ↦ some none
        | some (some (e, i)) ↦ some (some (e, record d { entry_index = i }))
        | none ↦ elim (load_next v d) [ none ↦ some none | some d' ↦ directory_next fuel v d' ]
      ]

  -- The loop of `directory_find_in_cluster`: the fuel bounds the entries, `sectors` the sectors
  -- between two of them.
  unfoldable pub find_loop :
      (fuel sectors : ℕ) → Volume D → Directory → (name : List ℕ) → Option (Option Entry)
  find_loop zero sectors v d name = none
  find_loop (suc fuel) sectors v d name = elim (directory_next sectors v d) [
    | none ↦ none
    | some none ↦ some none
    | some (some (e, d')) ↦
        let rest = find_loop fuel sectors v d' name in
        if same_string (directory_get_name e) name then some (some e) else rest
  ]

  unfoldable pub directory_find_in_cluster :
      (fuel : ℕ) → Volume D → (cluster : ℕ) → (name : List ℕ) → Option (Option Entry)
  directory_find_in_cluster fuel v cluster name =
      if disk == 0 then some none else elim (directory_open v cluster) [
        | none ↦ some none
        | some d ↦ find_loop fuel fuel v d name
      ]

  -- The names that `directory_read_root` writes.
  unfoldable pub names_loop : (fuel sectors : ℕ) → Volume D → Directory → Option (List (List ℕ))
  names_loop zero sectors v d = none
  names_loop (suc fuel) sectors v d = elim (directory_next sectors v d) [
    | none ↦ none
    | some none ↦ some []
    | some (some (e, d')) ↦ elim (names_loop fuel sectors v d') [
      | none ↦ none
      | some names ↦ some (directory_get_name e ∷ names)
    ]
  ]

  -- The inner `none` is false.
  pub directory_read_root : (fuel : ℕ) → Volume D → Option (Option (List (List ℕ)))
  unfolding names_loop
  directory_read_root fuel v = elim (directory_open_root v) [
    | none ↦ some none
    | some d ↦ elim (names_loop fuel fuel v d) [ none ↦ none | some names ↦ some (some names) ]
  ]
