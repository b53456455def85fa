-- ===== src/Arch/Irq/Typing.antt =====
-- From the keyboard's interrupts to the shell: kernel/arch/x86/irq.c, kernel/drivers/keyboard.c and
-- the loop of `kernel_main` together.
use miyar_os.Base.{
  ℕ, ◌+◌, ◌≤◌, ◌≡◌, ap, ◌∙◌, false, some, List, [], ◌∷◌, ◌++◌, take, take-all, length,
  length-append, arith,
}
use miyar_os.Drivers.Terminal.{Terminal}
use miyar_os.Drivers.Keyboard.Queue.{IsRing, waiting}
use miyar_os.Fs.Disk.{Drive}
use miyar_os.Shell.Execute.{shell_execute}
use miyar_os.Shell.Line.{Editor, after_command}
use miyar_os.Shell.Line.Keys.{type_keys, has_newline}
use miyar_os.Shell.Line.Rounds.{rounds, rounds-shell_execute}
use miyar_os.Arch.Irq.{Machine}
use miyar_os.Arch.Irq.Scancodes.{typed}
use miyar_os.Arch.Irq.Keys.{keyboard_irqs, keyboard_irqs-waiting}

module _ (D : Drive) (disk : ℕ) (a : ℕ → List ℕ) (fuel : ℕ) (scratch : ℕ → ℕ) where
  -- With a ring whose indices are in range and nothing waiting, and an editor at a prompt, where
  -- the line is empty: when the characters that a row of scancodes means are at most 126 without a
  -- newline and then a newline, the keyboard's interrupts for the row all return, and after them as
  -- many rounds of the loop as there are characters run the shell on the line that the characters
  -- make, a backspace taking the last byte. The shell is the one of before but for its terminal.
  pub keyboard_irqs-shell_execute :
      (r : ℕ) (ss : List ℕ) (m : Machine) (keys : List ℕ) (e : Editor D)
      → IsRing m.keyboard
      → waiting m.keyboard ≡ []
      → typed m.shift_pressed ss ≡ keys ++ (b'\n' ∷ [])
      → length keys ≤ 126
      → has_newline keys ≡ false
      → e.index ≡ 0
      → (m' : Machine) × (input : ℕ → ℕ) × (t : Terminal) × (keyboard_irqs fuel r ss m ≡ some m')
        × (rounds D disk a fuel scratch (length keys + 1) m'.keyboard e
            ≡ after_command D disk a fuel scratch input (
                shell_execute D disk a fuel scratch
                  (type_keys keys [])
                  (record e.shell { terminal = t })))
  keyboard_irqs-shell_execute r ss m keys e ring empty text short line start =
      let (m', handled, p) = keyboard_irqs-waiting fuel r ss m ring in
      let long : length (keys ++ (b'\n' ∷ [])) ≤ 127 =
        let n = length-append keys (b'\n' ∷ []) in omega (arith, n, short) in
      let waits : waiting m'.keyboard ≡ keys ++ (b'\n' ∷ []) =
        p.waits
        ∙ ap (λ (w : List ℕ). take 127 (w ++ typed m.shift_pressed ss)) empty
        ∙ ap (take 127) text
        ∙ take-all 127 (keys ++ (b'\n' ∷ [])) long in
      let (input, t, ran, other) =
        rounds-shell_execute D disk a fuel scratch keys m'.keyboard e p.ring waits line start in
      (m', input, t, handled, ran)
