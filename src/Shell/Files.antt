-- ===== src/Shell/Files.antt =====
-- The commands of kernel/shell.c that change files and directories by their names. A result `none`
-- stands for a search that does not end.
pub mod Laws
use miyar_os.Base.{
  ℕ, zero, suc, ◌+◌, Bool, true, false, ◌||◌, Option, none, some, List, [], ◌∷◌, length,
  if◌then◌else◌,
}
use miyar_os.Base.Text.{codes}
use miyar_os.Drivers.Terminal.{terminal_write, terminal_write_in}
use miyar_os.Fs.Disk.{Drive}
use miyar_os.Fs.Mount.{FileSystem}
use miyar_os.Fs.Lookup.{path_resolve}
use miyar_os.Fs.Commands.{directory_create, directory_delete}
use miyar_os.Fs.File.Paths.{file_create, file_delete, file_move}
use miyar_os.Fs.File.Copy.{file_copy}
use miyar_os.Shell.{Shell, on_terminal, say, with_fs}
use miyar_os.Shell.Parse.{get_next_argument, is_empty}
use miyar_os.Shell.Commands.{with_disk}

-- What a command does to the file of a name: whether it succeeded, and the file system after it.
abbrev pub Operation : Drive → Type 0
Operation D = FileSystem D → List ℕ → Option (Bool × FileSystem D)

module _ {D : Drive} where
  -- `terminal_write("Failed: ")` and the name.
  unfoldable pub say_failed : List ℕ → Shell D → Shell D
  say_failed name = on_terminal (λ t. terminal_write_in name (terminal_write (codes "Failed: ") t))

  -- The body of the loop, on a name.
  unfoldable pub on_name : Operation D → List ℕ → Shell D → Option (Shell D)
  unfolding say_failed
  on_name op name s = elim (op s.fs name) [
    | none ↦ none
    | some (ok, f) ↦ let s' = with_fs f s in some (if ok then s' else say_failed name s')
  ]

  -- The loop over the arguments. The fuel bounds the rounds.
  unfoldable pub each_argument :
      (rounds : ℕ) → Operation D → (args : List ℕ) → Shell D → Option (Shell D)
  unfolding on_name
  each_argument zero op args s = none
  each_argument (suc n) op args s = elim (get_next_argument 64 args) [
    | none ↦ some s
    | some (name, rest) ↦ elim (on_name op name s) [
      | none ↦ none
      | some s' ↦ each_argument n op rest s'
    ]
  ]

  -- A round takes a byte of the arguments at least.
  unfoldable pub all_arguments : Operation D → (args : List ℕ) → Shell D → Option (Shell D)
  unfolding each_argument
  all_arguments op args s = each_argument (length args + 1) op args s

module _ (D : Drive) (disk : ℕ) (a : ℕ → List ℕ) (fuel : ℕ) where
  unfoldable pub cmd_touch : (args : List ℕ) → Shell D → Option (Shell D)
  unfolding all_arguments with_disk
  cmd_touch [] s = some (say (codes "Usage: touch <file>") s)
  cmd_touch (c ∷ cs) s = with_disk D disk (λ d. all_arguments (file_create D d a fuel) (c ∷ cs)) s

  unfoldable pub cmd_mkdir : (args : List ℕ) → Shell D → Option (Shell D)
  unfolding all_arguments with_disk
  cmd_mkdir [] s = some (say (codes "Usage: mkdir <directory>") s)
  cmd_mkdir (c ∷ cs) s =
      with_disk D disk (λ d. all_arguments (directory_create D d a fuel) (c ∷ cs)) s

  unfoldable pub cmd_rm : (args : List ℕ) → Shell D → Option (Shell D)
  unfolding all_arguments with_disk
  cmd_rm [] s = some (say (codes "Usage: rm <file>") s)
  cmd_rm (c ∷ cs) s = with_disk D disk (λ d. all_arguments (file_delete D d a fuel) (c ∷ cs)) s

  unfoldable pub cmd_rmdir : (args : List ℕ) → Shell D → Option (Shell D)
  unfolding all_arguments with_disk
  cmd_rmdir [] s = some (say (codes "Usage: rmdir <directory>") s)
  cmd_rmdir (c ∷ cs) s =
      with_disk D disk (λ d. all_arguments (directory_delete D d a fuel) (c ∷ cs)) s

-- The first two arguments, with room for 127 bytes each. No word that was read is empty, so that
-- the second test of the commands for that never holds.
unfoldable pub two_arguments : (args : List ℕ) → Option (List ℕ × List ℕ)
unfolding get_next_argument is_empty
two_arguments args = elim (get_next_argument 128 args) [
  | none ↦ none
  | some (first, rest) ↦ elim (get_next_argument 128 rest) [
    | none ↦ none
    | some (second, left) ↦ if is_empty first || is_empty second then none else some (first, second)
  ]
]

module _ (D : Drive) (disk : ℕ) (a : ℕ → List ℕ) (fuel : ℕ) where
  -- The end of the commands: the message of a failure.
  unfoldable pub report :
      (message : List ℕ) → Shell D → Option (Bool × FileSystem D) → Option (Shell D)
  report message s none = none
  report message s (some (ok, f)) = let s' = with_fs f s in some (if ok then s' else say message s')

  unfoldable pub cmd_cp : (scratch : ℕ → ℕ) → (args : List ℕ) → Shell D → Option (Shell D)
  unfolding two_arguments with_disk report
  cmd_cp scratch args s = elim (two_arguments args) [
    | none ↦ some (say (codes "Usage: cp <source> <destination>") s)
    | some (source, destination) ↦
        with_disk D disk
          (λ d t.
            report (codes "Copy failed.") t (file_copy D d a fuel scratch t.fs source destination))
          s
  ]

  unfoldable pub cmd_mv : (args : List ℕ) → Shell D → Option (Shell D)
  unfolding two_arguments with_disk report
  cmd_mv args s = elim (two_arguments args) [
    | none ↦ some (say (codes "Usage: mv <old> <new>") s)
    | some (old_name, new_name) ↦
        with_disk D disk
          (λ d t. elim (path_resolve D d a fuel t.fs old_name) [
            | none ↦ none
            | some none ↦ some (say (codes "File not found.") t)
            | some (some e) ↦
                report (codes "Move failed.") t (file_move D d a fuel t.fs old_name new_name)
          ])
          s
  ]
