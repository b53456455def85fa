-- ===== src/Shell/Execute.antt =====
-- The table of the commands of kernel/shell.c, and `shell_execute`.
pub mod Reads
pub mod Table
pub mod Laws
pub mod Names
use miyar_os.Base.{ℕ, Bool, true, Option, none, some, List, [], ◌∷◌, if◌then◌else◌}
use miyar_os.Base.Text.{codes}
use miyar_os.Drivers.Terminal.{terminal_write, terminal_write_in}
use miyar_os.Fs.Disk.{Drive}
use miyar_os.Shell.{
  Shell, Stop, reboots, halts, divides_by_zero, writes_unmapped, Outcome, returns, stops,
  on_terminal, say,
}
use miyar_os.Shell.Parse.{streq, split_command}
use miyar_os.Shell.Commands.{
  cmd_help, cmd_about, cmd_clear, cmd_pwd, cmd_uptime, cmd_ls, cmd_cat, cmd_cd,
}
use miyar_os.Shell.Files.{cmd_touch, cmd_mkdir, cmd_rm, cmd_rmdir, cmd_cp, cmd_mv}
use miyar_os.Shell.Echo.{cmd_echo}

-- `command_func_t`: the handlers of the table.
pub data Command : Type 0 where
  help about echo clear ls touch cat mkdir cp mv rm rmdir : Command
  pwd cd exception pagefault reboot shutdown uptime : Command

abbrev pub command_table : List (List ℕ × Command)
command_table =
    (codes "help", help)
    ∷ (codes "about", about)
    ∷ (codes "echo", echo)
    ∷ (codes "clear", clear)
    ∷ (codes "ls", ls)
    ∷ (codes "touch", touch)
    ∷ (codes "cat", cat)
    ∷ (codes "mkdir", mkdir)
    ∷ (codes "cp", cp)
    ∷ (codes "mv", mv)
    ∷ (codes "rm", rm)
    ∷ (codes "rmdir", rmdir)
    ∷ (codes "pwd", pwd)
    ∷ (codes "cd", cd)
    ∷ (codes "exception", exception)
    ∷ (codes "pagefault", pagefault)
    ∷ (codes "reboot", reboot)
    ∷ (codes "shutdown", shutdown)
    ∷ (codes "uptime", uptime)
    ∷ []

-- The loop over a table: the first name that is the command's.
unfoldable pub find_command : List (List ℕ × Command) → List ℕ → Option Command
unfolding streq
find_command [] command = none
find_command ((name, handler) ∷ table) command =
    let rest = find_command table command in if streq command name then some handler else rest

module _ {D : Drive} where
  -- A handler that returns.
  unfoldable pub back : Option (Shell D) → Option (Outcome D)
  back none = none
  back (some s) = some (returns s)

  unfoldable pub reboot_system : Shell D → Outcome D
  reboot_system s = stops reboots (say (codes "Rebooting...") s)

  unfoldable pub shutdown_system : Shell D → Outcome D
  shutdown_system s = stops halts (say (codes "Shutting down...") s)

  -- The end of `shell_execute`.
  unfoldable pub say_unknown : (input : List ℕ) → Shell D → Shell D
  say_unknown input s = say [] (
      say (codes "Type \"help\" for a list of available commands.") (
        say [] (
          on_terminal (λ t. terminal_write_in input (terminal_write (codes "Unknown command: ") t))
            s)))

module _ (D : Drive) (disk : ℕ) (a : ℕ → List ℕ) (fuel : ℕ) (scratch : ℕ → ℕ) where
  unfoldable pub run_command : Command → (args : List ℕ) → Shell D → Option (Outcome D)
  unfolding back reboot_system shutdown_system
  run_command help args s = some (returns (cmd_help s))
  run_command about args s = some (returns (cmd_about s))
  run_command echo args s = back (cmd_echo D disk a fuel scratch args s)
  run_command clear args s = some (returns (cmd_clear s))
  run_command ls args s = back (cmd_ls D disk a fuel args s)
  run_command touch args s = back (cmd_touch D disk a fuel args s)
  run_command cat args s = back (cmd_cat D disk a fuel scratch args s)
  run_command mkdir args s = back (cmd_mkdir D disk a fuel args s)
  run_command cp args s = back (cmd_cp D disk a fuel scratch args s)
  run_command mv args s = back (cmd_mv D disk a fuel args s)
  run_command rm args s = back (cmd_rm D disk a fuel args s)
  run_command rmdir args s = back (cmd_rmdir D disk a fuel args s)
  run_command pwd args s = some (returns (cmd_pwd s))
  run_command cd args s = back (cmd_cd D disk a fuel args s)
  run_command exception args s = some (stops divides_by_zero s)
  run_command pagefault args s = some (stops writes_unmapped s)
  run_command reboot args s = some (reboot_system s)
  run_command shutdown args s = some (shutdown_system s)
  run_command uptime args s = some (returns (cmd_uptime s))

  unfoldable pub shell_execute : (input : List ℕ) → Shell D → Option (Outcome D)
  unfolding split_command find_command run_command say_unknown
  shell_execute [] s = some (returns (say [] s))
  shell_execute (c ∷ cs) s =
      let (command, args) = split_command (c ∷ cs) in
      elim (find_command command_table command) [
        | none ↦ some (returns (say_unknown (c ∷ cs) (say [] s)))
        | some handler ↦ run_command handler args (say [] s)
      ]
