-- ===== src/Shell.antt =====
-- kernel/shell.c, and the line editor in `kernel_main` of kernel/kernel.c.
pub mod Parse
pub mod Print
pub mod Commands
pub mod Files
pub mod Echo
pub mod Execute
pub mod Line
pub mod Sample
mod Tests
use miyar_os.Base.{ℕ, Bool, Option, none, some, List, if◌then◌else◌}
use miyar_os.Base.Text.{codes}
use miyar_os.Drivers.Terminal.{Terminal, terminal_write_in}
use miyar_os.Fs.Disk.{Drive}
use miyar_os.Fs.Mount.{FileSystem}

-- What the commands read and change.
pub record Shell (D : Drive) : Type 0 where
  pub fs : FileSystem D
  pub terminal : Terminal
  pub ticks : ℕ

-- How the processor is taken from the shell for good.
pub data Stop : Type 0 where
  reboots halts divides_by_zero writes_unmapped : Stop

-- The command returns, or it does not.
pub data Outcome (D : Drive) : Type 0 where
  returns : Shell D → Outcome D
  stops : Stop → Shell D → Outcome D

module _ {D : Drive} where
  abbrev pub on_terminal : (Terminal → Terminal) → Shell D → Shell D
  on_terminal f s = record s { terminal = f s.terminal }

  -- `terminal_writeIn`
  abbrev pub say : List ℕ → Shell D → Shell D
  say text = on_terminal (terminal_write_in text)

  abbrev pub with_fs : FileSystem D → Shell D → Shell D
  with_fs f s = record s { fs = f }
