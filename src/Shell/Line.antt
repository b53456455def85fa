-- ===== src/Shell/Line.antt =====
-- The loop at the end of `kernel_main` in kernel/kernel.c, which reads the keyboard's characters
-- into a line and hands the line to the shell.
pub mod Keys
pub mod Typing
pub mod Laws
pub mod Rounds
use miyar_os.Base.{
  ℕ, zero, suc, ◌+◌, ◌-◌, Option, none, some, List, [], ◌∷◌, ◌==◌, ltb, if◌then◌else◌, update,
}
use miyar_os.Drivers.Terminal.{terminal_write, terminal_prompt, terminal_backspace}
use miyar_os.Drivers.Keyboard.{Keyboard, keyboard_getchar}
use miyar_os.Fs.Disk.{Drive}
use miyar_os.Fs.File.{slice}
use miyar_os.Shell.{Shell, Stop, Outcome, returns, stops, on_terminal}
use miyar_os.Shell.Execute.{shell_execute}

-- The variables of the loop, and the shell.
pub record Editor (D : Drive) : Type 0 where
  pub input : ℕ → ℕ
  pub index : ℕ
  pub shell : Shell D

-- After a round of the loop: it goes on, or a command has not returned.
pub data Round (D : Drive) : Type 0 where
  goes_on : Editor D → Round D
  ends : Stop → Shell D → Round D

module _ (D : Drive) (disk : ℕ) (a : ℕ → List ℕ) (fuel : ℕ) (scratch : ℕ → ℕ) where
  -- What the loop does after the shell has run.
  unfoldable pub after_command : (input : ℕ → ℕ) → Option (Outcome D) → Option (Round D)
  after_command input none = none
  after_command input (some (returns s)) =
      some (goes_on (record { input = input; index = 0; shell = on_terminal terminal_prompt s }))
  after_command input (some (stops why s)) = some (ends why s)

  -- A round of the loop, on the character that `keyboard_getchar` returned. No byte before the
  -- index is 0.
  unfoldable pub edit : (c : ℕ) → Editor D → Option (Round D)
  unfolding after_command
  edit c e =
      if c == 0
      then some (goes_on e)
      else if c == 8
      then if ltb 0 e.index
        then some (
            goes_on
              (record e { index = e.index - 1; shell = on_terminal terminal_backspace e.shell }))
        else some (goes_on e)
      else if c == b'\n'
      then after_command (update e.input e.index 0)
          (shell_execute D disk a fuel scratch (slice e.index 0 e.input) e.shell)
      else if ltb e.index 127
      then some (
          goes_on (record e {
            input = update e.input e.index c;
            index = e.index + 1;
            shell = on_terminal (terminal_write (c ∷ [])) e.shell;
          }))
      else some (goes_on e)

  -- The round, with the keyboard.
  unfoldable pub round : Keyboard → Editor D → Option (Round D × Keyboard)
  unfolding edit
  round k e =
      let (c, k') = keyboard_getchar k in elim (edit c e) [ none ↦ none | some r ↦ some (r, k') ]
