-- ===== src/Shell/Execute/Laws.antt =====
-- The commands that leave the file system as it is.
use mathlib.Core.Option.{some-injective}
use miyar_os.Base.{
  ℕ, ◌≡◌, refl, sym, ap, ◌∙◌, inl, inr, Bool, true, false, some, List, [], ◌∷◌, Bool-cases,
  Option-cases, arith,
}
use miyar_os.Base.Text.{codes}
use miyar_os.Fs.Disk.{Drive}
use miyar_os.Shell.{Shell, say}
use miyar_os.Shell.Parse.{streq, split_command}
use miyar_os.Shell.Commands.{
  cmd_help, cmd_about, cmd_clear, cmd_pwd, cmd_uptime, cmd_ls, cmd_cat, ls_on, cat_on,
}
use miyar_os.Shell.Execute.{
  Command, help, about, echo, clear, ls, touch, cat, mkdir, cp, mv, rm, rmdir, pwd, cd, exception,
  pagefault, reboot, shutdown, uptime, command_table, find_command, run_command, shell_execute,
  reboot_system, shutdown_system, say_unknown,
}
use miyar_os.Shell.Execute.Names.{name_of}
use miyar_os.Shell.Execute.Table.{
  find_command-here, find_command-past, find_command-Named, command_table-Named,
}
use miyar_os.Shell.Execute.Reads.{
  Leaves, back-Leaves, with_disk-Returns, ls_on-Returns, cat_on-Returns, returns_with, stops_with,
}

-- The commands that may change files, directories or the directory that is current.
unfoldable pub changes_files : Command → Bool
changes_files help = false
changes_files about = false
changes_files echo = true
changes_files clear = false
changes_files ls = false
changes_files touch = true
changes_files cat = false
changes_files mkdir = true
changes_files cp = true
changes_files mv = true
changes_files rm = true
changes_files rmdir = true
changes_files pwd = false
changes_files cd = true
changes_files exception = false
changes_files pagefault = false
changes_files reboot = false
changes_files shutdown = false
changes_files uptime = false

-- The command is none of these.
pub data NoneOf (command : List ℕ) : List (List ℕ) → Type 0 where
  no_more : NoneOf command []
  not_this :
      {name : List ℕ} {names : List (List ℕ)}
      → streq command name ≡ false
      → NoneOf command names
      → NoneOf command (name ∷ names)

abbrev pub changing : List (List ℕ)
changing =
    codes "echo"
    ∷ codes "touch"
    ∷ codes "mkdir"
    ∷ codes "cp"
    ∷ codes "mv"
    ∷ codes "rm"
    ∷ codes "rmdir"
    ∷ codes "cd"
    ∷ []

-- No entry of a table that the command can meet changes files.
data AllSafe (command : List ℕ) : List (List ℕ × Command) → Type 0 where
  safe_end : AllSafe command []
  harmless :
      {name : List ℕ} {c : Command} {table : List (List ℕ × Command)}
      → changes_files c ≡ false
      → AllSafe command table
      → AllSafe command ((name, c) ∷ table)
  passed_over :
      {name : List ℕ} {c : Command} {table : List (List ℕ × Command)}
      → streq command name ≡ false
      → AllSafe command table
      → AllSafe command ((name, c) ∷ table)

find_command-AllSafe :
    (command : List ℕ) (table : List (List ℕ × Command)) (c : Command)
    → AllSafe command table
    → find_command table command ≡ some c
    → changes_files c ≡ false
unfolding find_command
find_command-AllSafe command [] c safe_end h = absurd (ground (arith, h))
find_command-AllSafe command ((name, d) ∷ table) c (harmless is below) h =
    elim (Bool-cases (streq command name)) [
      | inl here ↦
          let found : some d ≡ some c = sym (find_command-here command name d table here) ∙ h in
          ap changes_files (sym (some-injective _ _ found)) ∙ is
      | inr past ↦
          find_command-AllSafe command table c below
            (sym (find_command-past command name d table past) ∙ h)
    ]
find_command-AllSafe command ((name, d) ∷ table) c (passed_over past below) h =
    find_command-AllSafe command table c below
      (sym (find_command-past command name d table past) ∙ h)

command_table-AllSafe : (command : List ℕ) → NoneOf command changing → AllSafe command command_table
unfolding changes_files
command_table-AllSafe command
      (not_this e (
        not_this t (
          not_this md (not_this c (not_this m (not_this r (not_this rd (not_this d no_more)))))))) =
    harmless refl (
      harmless refl (
        passed_over e (
          harmless refl (
            harmless refl (
              passed_over t (
                harmless refl (
                  passed_over md (
                    passed_over c (
                      passed_over m (
                        passed_over r (
                          passed_over rd (
                            harmless refl (
                              passed_over d (
                                harmless refl (
                                  harmless refl (
                                    harmless refl
                                      (harmless refl (harmless refl safe_end))))))))))))))))))

module _ (D : Drive) (disk : ℕ) (a : ℕ → List ℕ) (fuel : ℕ) (scratch : ℕ → ℕ) where
  run_command-Leaves :
      (command : List ℕ) (c : Command) (args : List ℕ) (s : Shell D)
      → streq command (name_of c) ≡ true
      → changes_files c ≡ false
      → Leaves s.fs command (run_command D disk a fuel scratch c args s)
  unfolding run_command changes_files reboot_system shutdown_system cmd_help cmd_about cmd_clear
      cmd_pwd cmd_uptime cmd_ls cmd_cat name_of
  run_command-Leaves command help args s same h = returns_with refl
  run_command-Leaves command about args s same h = returns_with refl
  run_command-Leaves command echo args s same h = absurd (ground (arith, h))
  run_command-Leaves command clear args s same h = returns_with refl
  run_command-Leaves command ls args s same h =
      back-Leaves s.fs (cmd_ls D disk a fuel args s) (inl same) (
        with_disk-Returns D disk (ls_on D disk a fuel args) s
          (λ d. ls_on-Returns D disk a fuel args d s))
  run_command-Leaves command touch args s same h = absurd (ground (arith, h))
  run_command-Leaves command cat [] s same h = returns_with refl
  run_command-Leaves command cat (c ∷ cs) s same h =
      back-Leaves s.fs (cmd_cat D disk a fuel scratch (c ∷ cs) s) (inr same) (
        with_disk-Returns D disk (cat_on D disk a fuel scratch (c ∷ cs)) s
          (λ d. cat_on-Returns D disk a fuel scratch (c ∷ cs) d s))
  run_command-Leaves command mkdir args s same h = absurd (ground (arith, h))
  run_command-Leaves command cp args s same h = absurd (ground (arith, h))
  run_command-Leaves command mv args s same h = absurd (ground (arith, h))
  run_command-Leaves command rm args s same h = absurd (ground (arith, h))
  run_command-Leaves command rmdir args s same h = absurd (ground (arith, h))
  run_command-Leaves command pwd args s same h = returns_with refl
  run_command-Leaves command cd args s same h = absurd (ground (arith, h))
  run_command-Leaves command exception args s same h = stops_with refl
  run_command-Leaves command pagefault args s same h = stops_with refl
  run_command-Leaves command reboot args s same h = stops_with refl
  run_command-Leaves command shutdown args s same h = stops_with refl
  run_command-Leaves command uptime args s same h = returns_with refl

  -- A line whose command is none of the eight that write to files, directories or the current
  -- directory, known or not, comes to an end with the file system and its volume as they were,
  -- returning or stopping the machine; or its command is `ls` or `cat`, whose search of the disk is
  -- not over within the fuel.
  pub shell_execute-Leaves :
      (input : List ℕ) (s : Shell D)
      → NoneOf (split_command input).0 changing
      → Leaves s.fs (split_command input).0 (shell_execute D disk a fuel scratch input s)
  unfolding shell_execute say_unknown
  shell_execute-Leaves [] s h = returns_with refl
  shell_execute-Leaves (c ∷ cs) s h =
      let (command, args) = split_command (c ∷ cs) in
      elim (Option-cases (find_command command_table (split_command (c ∷ cs)).0)) [
        | inl unknown ↦ rw (shell_execute, unknown) (returns_with refl)
        | inr (handler, found) ↦
            rw (shell_execute, found)
              (run_command-Leaves (split_command (c ∷ cs)).0 handler (split_command (c ∷ cs)).1
                (say [] s)
                (find_command-Named (split_command (c ∷ cs)).0 command_table handler
                  command_table-Named found)
                (find_command-AllSafe (split_command (c ∷ cs)).0 command_table handler
                  (command_table-AllSafe (split_command (c ∷ cs)).0 h) found))
      ]
