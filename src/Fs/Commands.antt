-- ===== src/Fs/Commands.antt =====
-- The operations of kernel/fs/directory.c on paths. A result `none` stands for a search that does
-- not end; the Boolean is what the source returns. Names and paths are there.
use miyar_os.Base.{
  ℕ, Bool, true, false, not, Option, none, some, List, [], ◌∷◌, ◌==◌, ltb, if◌then◌else◌,
}
use miyar_os.Fs.Disk.{Drive}
use miyar_os.Fs.Fat32.{Volume, allocate_cluster, free_cluster_chain}
use miyar_os.Fs.Mount.{FileSystem, fs_set_current_directory}
use miyar_os.Fs.Path.{path_build_absolute}
use miyar_os.Fs.Lookup.{path_lookup, path_resolve}
use miyar_os.Fs.Directory.Entry.{
  Entry, blank_entry, set_attributes, attr_directory, is_directory, directory_entry_cluster,
  directory_set_entry_cluster,
}
use miyar_os.Fs.Directory.Name.{directory_set_name, space, dot}
use miyar_os.Fs.Directory.Iterate.{directory_find_in_cluster}
use miyar_os.Fs.Directory.Slots.{
  directory_write_entry, directory_create_entry_in_cluster, directory_delete_in_cluster,
  directory_is_empty, directory_rename_entry,
}

-- ".          " and "..         ", as the names of an entry.
unfoldable pub dot_name : (dots : ℕ) → Entry → Entry
dot_name dots e k = if ltb k dots then dot else if ltb k 11 then space else e k

-- The entries "." and ".." of a new directory.
unfoldable pub link_entry : (dots : ℕ) → (cluster : ℕ) → Entry
unfolding dot_name
link_entry dots cluster =
    directory_set_entry_cluster (set_attributes (dot_name dots blank_entry) attr_directory) cluster

module _ (D : Drive) (disk : ℕ) (a : ℕ → List ℕ) where
  -- The result of an operation on the volume, in the file system.
  abbrev pub on_volume : FileSystem D → Bool × Volume D → Bool × FileSystem D
  on_volume f r = (r.0, record f { volume = r.1 })

  pub directory_create_entry : (fuel : ℕ) → FileSystem D → Entry → Option (Bool × FileSystem D)
  directory_create_entry fuel f e =
      elim (directory_create_entry_in_cluster D disk fuel f.volume f.current_directory_cluster e) [
        | none ↦ none
        | some r ↦ some (on_volume f r)
      ]

  unfoldable pub directory_find :
      (fuel : ℕ) → FileSystem D → (name : List ℕ) → Option (Option Entry)
  directory_find fuel f name =
      directory_find_in_cluster D disk fuel f.volume f.current_directory_cluster name

  -- The clusters of an entry that was not made are given back.
  give_back : FileSystem D → Volume D → (cluster : ℕ) → Bool × FileSystem D
  give_back f v cluster = (false, record f { volume = (free_cluster_chain D disk v cluster).1 })

  -- "." and then ".." in the new cluster.
  write_links : Volume D → (cluster parent : ℕ) → Bool × Volume D
  write_links v cluster parent =
      let (first, v1) = directory_write_entry D disk v cluster (link_entry 1 cluster) in
      let second = directory_write_entry D disk v1 cluster (link_entry 2 parent) in
      if first then second else (false, v1)

  -- The entry of the new directory, in its parent, and what stands in it.
  create_in :
      (fuel : ℕ)
      → FileSystem D
      → Volume D
      → (cluster parent : ℕ) → (leaf : List ℕ) → Option (Bool × FileSystem D)
  unfolding give_back write_links
  create_in fuel f v cluster parent leaf = elim (directory_set_name blank_entry leaf) [
    | none ↦ some (give_back f v cluster)
    | some named ↦
        let e = directory_set_entry_cluster (set_attributes named attr_directory) cluster in
        elim (directory_create_entry_in_cluster D disk fuel v parent e) [
          | none ↦ none
          | some (made, v1) ↦
              some (
                if made
                then on_volume f (write_links v1 cluster parent)
                else give_back f v1 cluster)
        ]
  ]

  pub directory_create : (fuel : ℕ) → FileSystem D → (name : List ℕ) → Option (Bool × FileSystem D)
  unfolding create_in
  directory_create fuel f name =
      if disk == 0 then some (false, f) else elim (path_lookup D disk a fuel f name 0 []) [
        | none ↦ none
        | some l ↦ elim l.entry [
          | some existing ↦ some (false, f)
          | none ↦
              let (cluster, v) = allocate_cluster D disk f.volume in
              elim l.leaf [
                | [] ↦ some (false, f)
                | c ∷ cs ↦
                    if ltb l.parent 2
                    then some (false, f)
                    else if cluster == 0
                    then some (false, record f { volume = v })
                    else create_in fuel f v cluster l.parent (c ∷ cs)
              ]
        ]
      ]

  -- A directory that is empty is freed, and then its entry deleted.
  delete_empty :
      (fuel : ℕ)
      → FileSystem D
      → (cluster parent : ℕ) → (leaf : List ℕ) → Option (Bool × FileSystem D)
  delete_empty fuel f cluster parent leaf = elim (directory_is_empty D disk fuel f.volume cluster) [
    | none ↦ none
    | some false ↦ some (false, f)
    | some true ↦
        let (freed, v) = free_cluster_chain D disk f.volume cluster in
        if not freed
        then some (false, record f { volume = v })
        else elim (directory_delete_in_cluster D disk fuel v parent leaf) [
          | none ↦ none
          | some r ↦ some (on_volume f r)
        ]
  ]

  pub directory_delete : (fuel : ℕ) → FileSystem D → (name : List ℕ) → Option (Bool × FileSystem D)
  unfolding delete_empty
  directory_delete fuel f name =
      if disk == 0 then some (false, f) else elim (path_lookup D disk a fuel f name 0 []) [
        | none ↦ none
        | some l ↦ elim l.entry [
          | none ↦ some (false, f)
          | some e ↦
              if is_directory e
              then delete_empty fuel f (directory_entry_cluster e) l.parent l.leaf
              else some (false, f)
        ]
      ]

  -- The directory is freed here, and once more by `directory_delete`.
  pub directory_remove : (fuel : ℕ) → FileSystem D → (name : List ℕ) → Option (Bool × FileSystem D)
  directory_remove fuel f name =
      if disk == 0 then some (false, f) else elim (directory_find fuel f name) [
        | none ↦ none
        | some none ↦ some (false, f)
        | some (some e) ↦
            let cluster = directory_entry_cluster e in
            if not (is_directory e)
            then some (false, f)
            else elim (directory_is_empty D disk fuel f.volume cluster) [
              | none ↦ none
              | some false ↦ some (false, f)
              | some true ↦
                  let (freed, v) = free_cluster_chain D disk f.volume cluster in
                  let g = record f { volume = v } in
                  if cluster == 0
                  then directory_delete fuel f name
                  else if freed
                  then directory_delete fuel g name
                  else some (false, g)
            ]
      ]

  -- The new name is the whole of the second path, and the entry is looked for in the current
  -- directory under the whole of the first.
  pub directory_rename :
      (fuel : ℕ) → FileSystem D → (old_name new_name : List ℕ) → Option (Bool × FileSystem D)
  directory_rename fuel f old_name new_name =
      if disk == 0 then some (false, f) else elim (path_resolve D disk a fuel f old_name) [
        | none ↦ none
        | some none ↦ some (false, f)
        | some (some e) ↦ elim (path_resolve D disk a fuel f new_name) [
          | none ↦ none
          | some (some existing) ↦ some (false, f)
          | some none ↦ elim (directory_set_name e new_name) [
            | none ↦ some (false, f)
            | some named ↦
                elim (directory_rename_entry D disk fuel f.volume f.current_directory_cluster
                  old_name named) [ none ↦ none | some r ↦ some (on_volume f r) ]
          ]
        ]
      ]

  pub directory_change : (fuel : ℕ) → FileSystem D → (name : List ℕ) → Option (Bool × FileSystem D)
  directory_change fuel f name =
      if disk == 0 then some (false, f) else elim (path_resolve D disk a fuel f name) [
        | none ↦ none
        | some none ↦ some (false, f)
        | some (some e) ↦
            if not (is_directory e)
            then some (false, f)
            else some (elim (path_build_absolute a f.current_path name) [
              | none ↦ (false, f)
              | some path ↦ (true, fs_set_current_directory D f (directory_entry_cluster e) path)
            ])
      ]
