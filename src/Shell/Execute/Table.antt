-- ===== src/Shell/Execute/Table.antt =====
-- The search of the table of commands, and the names that its entries stand under.
use mathlib.Core.Option.{some-injective}
use miyar_os.Base.{
  ℕ, ◌≡◌, refl, sym, ap, ◌∙◌, inl, inr, true, false, some, List, [], ◌∷◌, Bool-cases, arith,
}
use miyar_os.Shell.Parse.{streq}
use miyar_os.Shell.Execute.{
  Command, help, about, echo, clear, ls, touch, cat, mkdir, cp, mv, rm, rmdir, pwd, cd, exception,
  pagefault, reboot, shutdown, uptime, command_table, find_command,
}
use miyar_os.Shell.Execute.Names.{name_of}

module _ (command name : List ℕ) (d : Command) (table : List (List ℕ × Command)) where
  pub find_command-here :
      streq command name ≡ true → find_command ((name, d) ∷ table) command ≡ some d
  unfolding find_command
  find_command-here here = rw (here) refl

  pub find_command-past :
      streq command name ≡ false
      → find_command ((name, d) ∷ table) command ≡ find_command table command
  unfolding find_command
  find_command-past past = rw (past) refl

-- Every entry of a table stands under its command's name.
pub data Named : List (List ℕ × Command) → Type 0 where
  named_end : Named []
  named :
      {name : List ℕ} (c : Command) {table : List (List ℕ × Command)}
      → name ≡ name_of c
      → Named table
      → Named ((name, c) ∷ table)

pub find_command-Named :
    (command : List ℕ) (table : List (List ℕ × Command)) (c : Command)
    → Named table
    → find_command table command ≡ some c
    → streq command (name_of c) ≡ true
unfolding find_command
find_command-Named command [] c named_end h = absurd (ground (arith, h))
find_command-Named command ((name, d) ∷ table) c (named _ is below) h =
    elim (Bool-cases (streq command name)) [
      | inl here ↦
          let found : some d ≡ some c = sym (find_command-here command name d table here) ∙ h in
          ap (λ n. streq command n) (ap name_of (sym (some-injective _ _ found)) ∙ sym is) ∙ here
      | inr past ↦
          find_command-Named command table c below
            (sym (find_command-past command name d table past) ∙ h)
    ]

pub command_table-Named : Named command_table
unfolding name_of
command_table-Named = named help refl (
    named about refl (
      named echo refl (
        named clear refl (
          named ls refl (
            named touch refl (
              named cat refl (
                named mkdir refl (
                  named cp refl (
                    named mv refl (
                      named rm refl (
                        named rmdir refl (
                          named pwd refl (
                            named cd refl (
                              named exception refl (
                                named pagefault refl (
                                  named reboot refl (
                                    named shutdown refl
                                      (named uptime refl named_end))))))))))))))))))
