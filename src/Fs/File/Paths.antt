-- ===== src/Fs/File/Paths.antt =====
-- The operations of kernel/fs/file.c on paths. A result `none` stands for a search that does not
-- end.
pub mod Destination
use miyar_os.Base.{
  ℕ, zero, suc, ◌+◌, ◌-◌, Bool, true, false, not, ◌&&◌, ◌||◌, Option, none, some, List, [], ◌∷◌,
  ◌++◌, length, ◌==◌, ltb, leb, if◌then◌else◌,
}
use miyar_os.Fs.Disk.{Drive}
use miyar_os.Fs.Fat32.{Volume, free_cluster_chain}
use miyar_os.Fs.Mount.{FileSystem}
use miyar_os.Fs.Path.{SplitPath, path_split, path_normalize, slash, dot}
use miyar_os.Fs.Lookup.{Lookup, path_lookup}
use miyar_os.Fs.Commands.{on_volume}
use miyar_os.Fs.Directory.Entry.{
  Entry, blank_entry, set_attributes, attr_archive, is_directory, directory_entry_cluster,
}
use miyar_os.Fs.Directory.Name.{directory_set_name}
use miyar_os.Fs.Directory.Slots.{
  directory_create_entry_in_cluster, directory_delete_in_cluster, directory_rename_entry,
  directory_move_entry,
}
use miyar_os.Fs.File.{File, Count, bytes, error, file_open, cluster_size}
use miyar_os.Fs.File.Read.{Reading, file_read}
use miyar_os.Fs.File.Write.{Writing, file_append}

-- The loop of `file_resolve_destination` that prints the components but the last, on what is
-- printed so far.
unfoldable pub parent_loop :
    (rounds i : ℕ)
    → (absolute : Bool) → (components : ℕ → List ℕ) → (output : List ℕ) → Option (List ℕ)
parent_loop zero i absolute c output = some output
parent_loop (suc n) i absolute c output =
    let separated = if ltb 0 i || absolute then output ++ slash ∷ [] else output in
    let rest = parent_loop n (i + 1) absolute c (separated ++ c i) in
    if leb 256 (length separated + length (c i)) then none else rest

unfoldable pub parent_path : SplitPath → Option (List ℕ)
parent_path p =
    elim (parent_loop (p.count - 1) 0 p.absolute p.components
      (if p.absolute then slash ∷ [] else [])) [
        | none ↦ none
        | some [] ↦ some dot
        | some (c ∷ cs) ↦ some (c ∷ cs)
      ]

module _ (D : Drive) (disk : ℕ) (a : ℕ → List ℕ) where
  -- The cluster and the name that the destination is taken for, `some none` for false. `parent` is
  -- the caller's variable.
  unfoldable pub file_resolve_destination :
      (fuel : ℕ) → FileSystem D → (new_name : List ℕ) → (parent : ℕ) → Option (Option (ℕ × List ℕ))
  file_resolve_destination fuel f new_name parent =
      if disk == 0 then some none else elim (path_split a (some new_name)) [
        | none ↦ some none
        | some split ↦
            let p = path_normalize split in
            let leaf = p.components (p.count - 1) in
            if p.count == 0
            then some none
            else if p.count == 1
            then some (some (f.current_directory_cluster, p.components 0))
            else elim (parent_path p) [
              | none ↦ some none
              | some path ↦ elim (path_lookup D disk a fuel f path parent []) [
                | none ↦ none
                | some l ↦ elim l.entry [ none ↦ some none | some e ↦ some (some (l.parent, leaf)) ]
              ]
            ]
      ]

  unfoldable pub file_create :
      (fuel : ℕ) → FileSystem D → (name : List ℕ) → Option (Bool × FileSystem D)
  file_create fuel f name =
      if disk == 0 then some (false, f) else elim (path_lookup D disk a fuel f name 0 []) [
        | none ↦ none
        | some l ↦ elim l.entry [
          | some existing ↦ some (false, f)
          | none ↦ elim l.leaf [
            | [] ↦ some (false, f)
            | c ∷ cs ↦
                if ltb l.parent 2
                then some (false, f)
                else elim (directory_set_name blank_entry (c ∷ cs)) [
                  | none ↦ some (false, f)
                  | some e ↦
                      elim (directory_create_entry_in_cluster D disk fuel f.volume l.parent
                        (set_attributes e attr_archive)) [
                          | none ↦ none
                          | some r ↦ some (on_volume D disk a f r)
                        ]
                ]
          ]
        ]
      ]

  -- The chain of a file is freed, and then its entry deleted.
  delete_found :
      (fuel : ℕ)
      → FileSystem D
      → Entry
      → (parent : ℕ) → (leaf : List ℕ) → Option (Bool × FileSystem D)
  delete_found fuel f e parent leaf =
      let first = directory_entry_cluster e in
      let (freed, v) =
        if first == 0 then (true, f.volume) else free_cluster_chain D disk f.volume first in
      if not freed
      then some (false, record f { volume = v })
      else elim (directory_delete_in_cluster D disk fuel v parent leaf) [
        | none ↦ none
        | some r ↦ some (on_volume D disk a f r)
      ]

  pub file_delete : (fuel : ℕ) → FileSystem D → (name : List ℕ) → Option (Bool × FileSystem D)
  unfolding delete_found
  file_delete fuel f name =
      if disk == 0 then some (false, f) else elim (path_lookup D disk a fuel f name 0 []) [
        | none ↦ none
        | some l ↦ elim l.entry [
          | none ↦ some (false, f)
          | some e ↦
              if is_directory e then some (false, f) else delete_found fuel f e l.parent l.leaf
        ]
      ]

  is_empty_string : List ℕ → Bool
  is_empty_string [] = true
  is_empty_string (c ∷ cs) = false

  -- The entry under its new name, in its directory or another.
  move_found :
      (fuel : ℕ)
      → FileSystem D
      → Entry
      → (source target : ℕ) → (source_leaf target_leaf : List ℕ) → Option (Bool × FileSystem D)
  move_found fuel f e source target source_leaf target_leaf =
      elim (directory_set_name e target_leaf) [
        | none ↦ some (false, f)
        | some named ↦
            elim (if source == target
              then directory_rename_entry D disk fuel f.volume source source_leaf named
              else directory_move_entry D disk fuel f.volume source target source_leaf named) [
                | none ↦ none
                | some r ↦ some (on_volume D disk a f r)
              ]
      ]

  pub file_move :
      (fuel : ℕ) → FileSystem D → (old_name new_name : List ℕ) → Option (Bool × FileSystem D)
  unfolding move_found is_empty_string
  file_move fuel f old_name new_name =
      if disk == 0 then some (false, f) else elim (path_lookup D disk a fuel f old_name 0 []) [
        | none ↦ none
        | some l ↦ elim l.entry [
          | none ↦ some (false, f)
          | some e ↦ elim (file_resolve_destination fuel f new_name 0) [
            | none ↦ none
            | some none ↦ some (false, f)
            | some (some (target, leaf)) ↦ elim (path_lookup D disk a fuel f new_name 0 []) [
              | none ↦ none
              | some t ↦ elim t.entry [
                | some existing ↦ some (false, f)
                | none ↦
                    if is_empty_string l.leaf || is_empty_string leaf
                    then some (false, f)
                    else if ltb target 2
                    then some (false, f)
                    else move_found fuel f e l.parent target l.leaf leaf
              ]
            ]
          ]
        ]
      ]
