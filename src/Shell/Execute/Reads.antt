-- ===== src/Shell/Execute/Reads.antt =====
-- `ls` and `cat` leave the file system as it is.
use miyar_os.Base.{
  ℕ, ◌≡◌, refl, ◌⊎◌, inl, inr, true, Option, none, some, List, [], ◌∷◌, ◌==◌, Bool-cases,
  Option-cases,
}
use miyar_os.Fs.Disk.{Drive, disk_get}
use miyar_os.Fs.Mount.{FileSystem}
use miyar_os.Fs.Lookup.{path_lookup}
use miyar_os.Fs.Directory.Entry.{is_directory, directory_entry_cluster}
use miyar_os.Fs.Directory.Iterate.{directory_open, names_loop}
use miyar_os.Fs.File.{Count, bytes, error, file_open}
use miyar_os.Fs.File.Read.{file_read}
use miyar_os.Shell.{Shell, Stop, Outcome, returns, stops}
use miyar_os.Shell.Commands.{with_disk, list_cluster, ls_on, cat_on}
use miyar_os.Base.Text.{codes}
use miyar_os.Shell.Parse.{streq}
use miyar_os.Shell.Execute.{back}

module _ {D : Drive} where
  -- The shell comes back, if it does, with the file system `f`.
  pub data Returns (f : FileSystem D) : Option (Shell D) → Type 0 where
    endless : Returns f none
    kept : {s : Shell D} → s.fs ≡ f → Returns f (some s)

  -- The file system is `f` when a command has returned or stops the machine; only `ls` and `cat`,
  -- which search the disk, may run out of fuel.
  pub data Leaves (f : FileSystem D) (command : List ℕ) : Option (Outcome D) → Type 0 where
    searches_on :
        (streq command (codes "ls") ≡ true) ⊎ (streq command (codes "cat") ≡ true)
        → Leaves f command none
    returns_with : {s : Shell D} → s.fs ≡ f → Leaves f command (some (returns s))
    stops_with : {why : Stop} {s : Shell D} → s.fs ≡ f → Leaves f command (some (stops why s))

  pub back-Leaves :
      (f : FileSystem D) {command : List ℕ} (r : Option (Shell D))
      → (streq command (codes "ls") ≡ true) ⊎ (streq command (codes "cat") ≡ true)
      → Returns f r
      → Leaves f command (back r)
  unfolding back
  back-Leaves f none search endless = searches_on search
  back-Leaves f (some s) search (kept h) = returns_with h

Count-cases : (r : Count) → ((n : ℕ) × (r ≡ bytes n)) ⊎ ((c : ℕ) × (r ≡ error c))
Count-cases (bytes n) = inl (n, refl)
Count-cases (error c) = inr (c, refl)

module _ (D : Drive) (disk : ℕ) where
  pub with_disk-Returns :
      (body : ℕ → Shell D → Option (Shell D)) (s : Shell D)
      → ((d : ℕ) → Returns s.fs (body d s))
      → Returns s.fs (with_disk D disk body s)
  unfolding with_disk
  with_disk-Returns body s h = elim (Bool-cases (disk_get D disk s.fs.volume.ata == 0)) [
    | inl missing ↦ rw (with_disk, missing) (kept refl)
    | inr there ↦ rw (with_disk, there) (h (disk_get D disk s.fs.volume.ata))
  ]

  list_cluster-Returns :
      (fuel d cluster : ℕ) (s : Shell D) → Returns s.fs (list_cluster D disk fuel d cluster s)
  unfolding list_cluster
  list_cluster-Returns fuel d cluster s =
      elim (Option-cases (directory_open D d s.fs.volume cluster)) [
        | inl fails ↦ rw (list_cluster, fails) (kept refl)
        | inr (dir, opens) ↦ elim (Option-cases (names_loop D d fuel fuel s.fs.volume dir)) [
          | inl on ↦ rw (list_cluster, opens, on) endless
          | inr (names, ended) ↦ rw (list_cluster, opens, ended) (kept refl)
        ]
      ]

  module _ (a : ℕ → List ℕ) (fuel : ℕ) where
    pub ls_on-Returns :
        (args : List ℕ) (d : ℕ) (s : Shell D) → Returns s.fs (ls_on D disk a fuel args d s)
    unfolding ls_on
    ls_on-Returns [] d s = list_cluster-Returns fuel d s.fs.current_directory_cluster s
    ls_on-Returns (c ∷ cs) d s = elim (Option-cases (path_lookup D d a fuel s.fs (c ∷ cs) 0 [])) [
      | inl on ↦ rw (ls_on, on) endless
      | inr (l, found) ↦ elim (Option-cases l.entry) [
        | inl missing ↦ rw (ls_on, found, missing) (kept refl)
        | inr (e, there) ↦ elim (Bool-cases (is_directory e)) [
          | inl is ↦
              rw (ls_on, found, there, is)
                (list_cluster-Returns fuel d (directory_entry_cluster e) s)
          | inr is ↦ rw (ls_on, found, there, is) (kept refl)
        ]
      ]
    ]

    pub cat_on-Returns :
        (scratch : ℕ → ℕ) (args : List ℕ) (d : ℕ) (s : Shell D)
        → Returns s.fs (cat_on D disk a fuel scratch args d s)
    unfolding cat_on
    cat_on-Returns scratch args d s = elim (Option-cases (path_lookup D d a fuel s.fs args 0 [])) [
      | inl on ↦ rw (cat_on, on) endless
      | inr (l, found) ↦ elim (Option-cases l.entry) [
        | inl missing ↦ rw (cat_on, found, missing) (kept refl)
        | inr (e, there) ↦ elim (Bool-cases (is_directory e)) [
          | inl is ↦ rw (cat_on, found, there, is) (kept refl)
          | inr is ↦ elim (Option-cases (file_open d l.parent e)) [
            | inl fails ↦ rw (cat_on, found, there, is, fails) (kept refl)
            | inr (file, opens) ↦
                elim (Count-cases (file_read D d scratch s.fs.volume file 512).result) [
                  | inl (n, read) ↦ rw (cat_on, found, there, is, opens, read) (kept refl)
                  | inr (c, fails) ↦ rw (cat_on, found, there, is, opens, fails) (kept refl)
                ]
          ]
        ]
      ]
    ]
