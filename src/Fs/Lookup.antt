-- ===== src/Fs/Lookup.antt =====
-- `path_lookup` and `path_resolve` of kernel/fs/path.c. `a` is what their `path_t` held before.
use miyar_os.Base.{
  ℕ, zero, suc, ◌+◌, ◌-◌, not, ◌&&◌, Option, none, some, List, [], ◌==◌, if◌then◌else◌,
}
use miyar_os.Fs.Disk.{Drive}
use miyar_os.Fs.Fat32.{Volume}
use miyar_os.Fs.Mount.{FileSystem}
use miyar_os.Fs.Path.{SplitPath, path_split, path_normalize, same_string, dots}
use miyar_os.Fs.Directory.Entry.{
  Entry, blank_entry, set_attributes, attr_directory, is_directory, directory_entry_cluster,
  directory_set_entry_cluster,
}
use miyar_os.Fs.Directory.Iterate.{directory_find_in_cluster}

-- What the call leaves: the entry for true, and the two variables of the caller. Where the caller
-- passes null for one of these, it has no use for the field.
pub record Lookup : Type 0 where
  pub entry : Option Entry
  pub parent : ℕ
  pub leaf : List ℕ

-- The entry that stands for the root.
unfoldable pub root_entry : (root : ℕ) → Entry
root_entry root = directory_set_entry_cluster (set_attributes blank_entry attr_directory) root

module _ (D : Drive) (disk : ℕ) where
  -- The loop over the components: `current` is the entry that was found last.
  unfoldable pub lookup_loop :
      (fuel : ℕ)
      → Volume D
      → (rounds i : ℕ) → SplitPath
      → (cluster parent : ℕ) → (current : Entry) → Option (Option Entry × ℕ)
  lookup_loop fuel v zero i p cluster parent current = some (some current, parent)
  lookup_loop fuel v (suc n) i p cluster parent current =
      let last = i == p.count - 1 in
      let parent' = if last then cluster else parent in
      elim (directory_find_in_cluster D disk fuel v cluster (p.components i)) [
        | none ↦ none
        | some none ↦ some (none, parent')
        | some (some e) ↦
            let below = lookup_loop fuel v n (i + 1) p (directory_entry_cluster e) parent' e in
            let here = lookup_loop fuel v n (i + 1) p cluster parent' e in
            if last then here else if is_directory e then below else some (none, parent')
      ]

  -- The path after it is split and normalised.
  unfoldable pub lookup_parsed :
      (fuel : ℕ) → FileSystem D → SplitPath → (parent : ℕ) → (leaf : List ℕ) → Option Lookup
  lookup_parsed fuel f p parent leaf =
      let root = f.volume.fs.root_cluster in
      let start = if p.absolute then root else f.current_directory_cluster in
      let name = p.components (p.count - 1) in
      if not p.absolute
        && ((p.count == 1)
            && (same_string (p.components 0) dots && (f.current_directory_cluster == root)))
      then some (record { entry = some (root_entry root); parent = root; leaf = dots })
      else if p.count == 0
      then if p.absolute
        then some (record { entry = some (root_entry root); parent = root; leaf = [] })
        else some (record { entry = none; parent = parent; leaf = leaf })
      else elim (lookup_loop fuel f.volume p.count 0 p start parent blank_entry) [
        | none ↦ none
        | some (e, parent') ↦ some (record { entry = e; parent = parent'; leaf = name })
      ]

  unfoldable pub path_lookup :
      (a : ℕ → List ℕ) (fuel : ℕ)
      → FileSystem D
      → (path : List ℕ) → (parent : ℕ) → (leaf : List ℕ) → Option Lookup
  path_lookup a fuel f path parent leaf =
      if disk == 0
      then some (record { entry = none; parent = parent; leaf = leaf })
      else elim (path_split a (some path)) [
        | none ↦ some (record { entry = none; parent = parent; leaf = leaf })
        | some p ↦ lookup_parsed fuel f (path_normalize p) parent leaf
      ]

  unfoldable pub path_resolve :
      (a : ℕ → List ℕ) (fuel : ℕ) → FileSystem D → (path : List ℕ) → Option (Option Entry)
  path_resolve a fuel f path = elim (path_lookup a fuel f path 0 []) [
    | none ↦ none
    | some l ↦ some l.entry
  ]
