-- ===== src/Shell/Commands.antt =====
-- The commands of kernel/shell.c that print, and `cd`. A result `none` stands for a search that
-- does not end. `disk` is the address of the first disk, `a` is what the paths on the stack held,
-- and `scratch` what the cluster buffers held.
use miyar_os.Base.{ℕ, ◌/◌, not, Option, none, some, List, [], ◌∷◌, ◌==◌, if◌then◌else◌}
use miyar_os.Base.Text.{codes}
use miyar_os.Drivers.Terminal.{Terminal, terminal_write, terminal_write_in, terminal_clear}
use miyar_os.Fs.Disk.{Drive, disk_get}
use miyar_os.Fs.Path.{same_string, dot}
use miyar_os.Fs.Lookup.{path_lookup}
use miyar_os.Fs.Directory.Entry.{is_directory, directory_entry_cluster}
use miyar_os.Fs.Directory.Iterate.{directory_open, names_loop}
use miyar_os.Fs.Directory.Name.{before_nul}
use miyar_os.Fs.File.{bytes, error, file_open}
use miyar_os.Fs.File.Read.{file_read}
use miyar_os.Fs.Commands.{directory_change}
use miyar_os.Shell.{Shell, on_terminal, say, with_fs}
use miyar_os.Shell.Print.{write_uint32}

-- `terminal_writeIn` of one text after another.
unfoldable pub say_all : List (List ℕ) → Terminal → Terminal
say_all [] t = t
say_all (s ∷ ss) t = say_all ss (terminal_write_in s t)

abbrev pub help_text : List (List ℕ)
help_text =
    []
    ∷ codes "Available commands: "
    ∷ codes "-------------------\n"
    ∷ codes "  help                    Shows this help message"
    ∷ codes "  about                   About MiyarOS"
    ∷ codes "  echo <msg>              Print text"
    ∷ codes "             > <file>     Write text to a file"
    ∷ codes "             >> <file>    Append text to a file"
    ∷ codes "  ls                      List files in the current directory"
    ∷ codes "  cd <dir>                Change current directory"
    ∷ codes "  pwd                     Print current working directory"
    ∷ codes "  touch <file>            Create a new file"
    ∷ codes "  cat <file>              Display the contents of a file"
    ∷ codes "  rm <file>               Delete a file"
    ∷ codes "  cp <src> <dest>         Copy a file"
    ∷ codes "  mv <src> <dest>         Move or rename a file"
    ∷ codes "  mkdir <dir>             Create a new directory"
    ∷ codes "  rmdir <dir>             Remove an empty directory"
    ∷ codes "  uptime                  Shows system uptime"
    ∷ codes "  clear                   Clear the screen"
    ∷ codes "  reboot                  Restart the system"
    ∷ codes "  shutdown                Halt the system"
    ∷ []
    ∷ []

abbrev pub about_text : List (List ℕ)
about_text =
    []
    ∷ codes "MiyarOS v0.4.0"
    ∷ codes "Kernel: 0.4.0"
    ∷ codes "Architecture: x86(32-bits)"
    ∷ []
    ∷ codes "A hobby operating system written from scratch"
    ∷ codes "in C and x86 Assembly."
    ∷ []
    ∷ codes "Author: Tashfeen Miyar"
    ∷ codes "License: GNU General Public License V3.0(GPLv3)"
    ∷ []
    ∷ []

module _ {D : Drive} where
  unfoldable pub cmd_help : Shell D → Shell D
  cmd_help = on_terminal (say_all help_text)

  unfoldable pub cmd_about : Shell D → Shell D
  cmd_about = on_terminal (say_all about_text)

  unfoldable pub cmd_clear : Shell D → Shell D
  cmd_clear = on_terminal terminal_clear

  unfoldable pub cmd_pwd : Shell D → Shell D
  cmd_pwd s = say s.fs.current_path s

  unfoldable pub cmd_uptime : Shell D → Shell D
  cmd_uptime s = say (codes " seconds") (on_terminal (write_uint32 (s.ticks / 100)) s)

module _ (D : Drive) (disk : ℕ) where
  -- The test for a disk that the commands share.
  unfoldable pub with_disk : (ℕ → Shell D → Option (Shell D)) → Shell D → Option (Shell D)
  unfolding disk_get
  with_disk body s =
      let d = disk_get D disk s.fs.volume.ata in
      if d == 0 then some (say (codes "No disk available.") s) else body d s

  -- What `cmd_ls` does with a cluster.
  unfoldable pub list_cluster : (fuel d cluster : ℕ) → Shell D → Option (Shell D)
  list_cluster fuel d cluster s = elim (directory_open D d s.fs.volume cluster) [
    | none ↦ some (say (codes "Failed to open directory.") s)
    | some dir ↦ elim (names_loop D d fuel fuel s.fs.volume dir) [
      | none ↦ none
      | some names ↦ some (on_terminal (say_all names) s)
    ]
  ]

  module _ (a : ℕ → List ℕ) (fuel : ℕ) where
    unfoldable pub ls_on : (args : List ℕ) → (d : ℕ) → Shell D → Option (Shell D)
    unfolding list_cluster
    ls_on [] d s = list_cluster fuel d s.fs.current_directory_cluster s
    ls_on (c ∷ cs) d s = elim (path_lookup D d a fuel s.fs (c ∷ cs) 0 []) [
      | none ↦ none
      | some l ↦ elim l.entry [
        | none ↦ some (say (codes "Directory not found.") s)
        | some e ↦
            if not (is_directory e)
            then some (say (codes "Not a directory.") s)
            else list_cluster fuel d (directory_entry_cluster e) s
      ]
    ]

    unfoldable pub cmd_ls : (args : List ℕ) → Shell D → Option (Shell D)
    unfolding ls_on with_disk
    cmd_ls args = with_disk (ls_on args)

    unfoldable pub cat_on :
        (scratch : ℕ → ℕ) → (args : List ℕ) → (d : ℕ) → Shell D → Option (Shell D)
    cat_on scratch args d s = elim (path_lookup D d a fuel s.fs args 0 []) [
      | none ↦ none
      | some l ↦ elim l.entry [
        | none ↦ some (say (codes "File not found.") s)
        | some e ↦
            if is_directory e
            then some (say (codes "Cannot read a directory.") s)
            else elim (file_open d l.parent e) [
              | none ↦ some (say (codes "Unable to open file.") s)
              | some file ↦
                  let r = file_read D d scratch s.fs.volume file 512 in
                  elim r.result [
                    | error c ↦ some (say (codes "Read failed.") s)
                    | bytes n ↦
                        some (
                          say [] (on_terminal (terminal_write (before_nul r.data_read)) (say [] s)))
                  ]
            ]
      ]
    ]

    unfoldable pub cmd_cat : (scratch : ℕ → ℕ) → (args : List ℕ) → Shell D → Option (Shell D)
    unfolding cat_on with_disk
    cmd_cat scratch [] s = some (say (codes "Usage: cat <file>") s)
    cmd_cat scratch (c ∷ cs) s = with_disk (cat_on scratch (c ∷ cs)) s

    unfoldable pub cd_on : (args : List ℕ) → (d : ℕ) → Shell D → Option (Shell D)
    cd_on args d s = elim (directory_change D d a fuel s.fs args) [
      | none ↦ none
      | some (ok, f) ↦
          let s' = with_fs f s in some (if ok then s' else say (codes "Directory not found.") s')
    ]

    unfoldable pub cmd_cd : (args : List ℕ) → Shell D → Option (Shell D)
    unfolding cd_on with_disk
    cmd_cd [] s = some (say (codes "Usage: cd <directory>") s)
    cmd_cd (c ∷ cs) s = if same_string (c ∷ cs) dot then some s else with_disk (cd_on (c ∷ cs)) s
