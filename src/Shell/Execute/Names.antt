-- ===== src/Shell/Execute/Names.antt =====
-- Every command of the table is run by its name.
use miyar_os.Base.{
  ℕ, ◌≤◌, ◌≡◌, refl, ap, ◌∙◌, true, some, List, [], ◌∷◌, ◌++◌, length, length-append, arith,
}
use miyar_os.Base.Text.{codes}
use miyar_os.Fs.Disk.{Drive}
use miyar_os.Shell.{Shell, say}
use miyar_os.Shell.Parse.{split_command}
use miyar_os.Shell.Parse.Split.{spaces, is_word, starts_bare, split_command-line}
use miyar_os.Shell.Execute.{
  Command, help, about, echo, clear, ls, touch, cat, mkdir, cp, mv, rm, rmdir, pwd, cd, exception,
  pagefault, reboot, shutdown, uptime, command_table, find_command, run_command, shell_execute,
}

-- The name of a command, as a user knows it.
unfoldable pub name_of : Command → List ℕ
name_of help = codes "help"
name_of about = codes "about"
name_of echo = codes "echo"
name_of clear = codes "clear"
name_of ls = codes "ls"
name_of touch = codes "touch"
name_of cat = codes "cat"
name_of mkdir = codes "mkdir"
name_of cp = codes "cp"
name_of mv = codes "mv"
name_of rm = codes "rm"
name_of rmdir = codes "rmdir"
name_of pwd = codes "pwd"
name_of cd = codes "cd"
name_of exception = codes "exception"
name_of pagefault = codes "pagefault"
name_of reboot = codes "reboot"
name_of shutdown = codes "shutdown"
name_of uptime = codes "uptime"

-- What the shell needs of a name.
record IsKnown (c : Command) : Type 0 where
  word : is_word (name_of c) ≡ true
  some_byte : 1 ≤ length (name_of c)
  short : length (name_of c) ≤ 31
  found : find_command command_table (name_of c) ≡ some c

name_of-IsKnown : (c : Command) → IsKnown c
unfolding name_of is_word find_command
name_of-IsKnown help = record {
  word = refl;
  some_byte = omega arith;
  short = omega arith;
  found = refl;
}
name_of-IsKnown about = record {
  word = refl;
  some_byte = omega arith;
  short = omega arith;
  found = refl;
}
name_of-IsKnown echo = record {
  word = refl;
  some_byte = omega arith;
  short = omega arith;
  found = refl;
}
name_of-IsKnown clear = record {
  word = refl;
  some_byte = omega arith;
  short = omega arith;
  found = refl;
}
name_of-IsKnown ls = record {
  word = refl;
  some_byte = omega arith;
  short = omega arith;
  found = refl;
}
name_of-IsKnown touch = record {
  word = refl;
  some_byte = omega arith;
  short = omega arith;
  found = refl;
}
name_of-IsKnown cat = record {
  word = refl;
  some_byte = omega arith;
  short = omega arith;
  found = refl;
}
name_of-IsKnown mkdir = record {
  word = refl;
  some_byte = omega arith;
  short = omega arith;
  found = refl;
}
name_of-IsKnown cp = record {
  word = refl;
  some_byte = omega arith;
  short = omega arith;
  found = refl;
}
name_of-IsKnown mv = record {
  word = refl;
  some_byte = omega arith;
  short = omega arith;
  found = refl;
}
name_of-IsKnown rm = record {
  word = refl;
  some_byte = omega arith;
  short = omega arith;
  found = refl;
}
name_of-IsKnown rmdir = record {
  word = refl;
  some_byte = omega arith;
  short = omega arith;
  found = refl;
}
name_of-IsKnown pwd = record {
  word = refl;
  some_byte = omega arith;
  short = omega arith;
  found = refl;
}
name_of-IsKnown cd = record {
  word = refl;
  some_byte = omega arith;
  short = omega arith;
  found = refl;
}
name_of-IsKnown exception = record {
  word = refl;
  some_byte = omega arith;
  short = omega arith;
  found = refl;
}
name_of-IsKnown pagefault = record {
  word = refl;
  some_byte = omega arith;
  short = omega arith;
  found = refl;
}
name_of-IsKnown reboot = record {
  word = refl;
  some_byte = omega arith;
  short = omega arith;
  found = refl;
}
name_of-IsKnown shutdown = record {
  word = refl;
  some_byte = omega arith;
  short = omega arith;
  found = refl;
}
name_of-IsKnown uptime = record {
  word = refl;
  some_byte = omega arith;
  short = omega arith;
  found = refl;
}

shell_execute-line :
    (D : Drive) (disk : ℕ) (a : ℕ → List ℕ) (fuel : ℕ) (scratch : ℕ → ℕ)
    (line command args : List ℕ) (c : Command) (s : Shell D)
    → 1 ≤ length line
    → split_command line ≡ (command, args)
    → find_command command_table command ≡ some c
    → shell_execute D disk a fuel scratch line s
      ≡ run_command D disk a fuel scratch c args (say [] s)
unfolding shell_execute
shell_execute-line D disk a fuel scratch [] command args c s long parts found =
    absurd (omega (arith, long))
shell_execute-line D disk a fuel scratch (x ∷ xs) command args c s long parts found =
    let line = x ∷ xs in
    let known : find_command command_table (split_command line).0 ≡ some c =
      ap (λ (r : List ℕ × List ℕ). find_command command_table r.0) parts ∙ found in
    let runs : run_command D disk a fuel scratch c (split_command line).1 (say [] s)
        ≡ run_command D disk a fuel scratch c args (say [] s) =
      ap (λ (r : List ℕ × List ℕ). run_command D disk a fuel scratch c r.1 (say [] s)) parts in
    rw (shell_execute, known) runs

-- A line with the name of one of the nineteen commands, any spaces before it, one or more behind
-- it, and arguments of at most 223 bytes that do not start with a space, runs that command on the
-- arguments, after a newline.
pub shell_execute-name_of :
    (D : Drive) (disk : ℕ) (a : ℕ → List ℕ) (fuel : ℕ) (scratch : ℕ → ℕ) (c : Command)
    (before between : ℕ) (args : List ℕ) (s : Shell D)
    → starts_bare args ≡ true
    → length args ≤ 223
    → shell_execute D disk a fuel scratch
        (spaces before ++ (name_of c ++ b' ' ∷ (spaces between ++ args)))
        s
      ≡ run_command D disk a fuel scratch c args (say [] s)
unfolding shell_execute
shell_execute-name_of D disk a fuel scratch c before between args s bare room =
    let n = name_of-IsKnown c in
    let line = spaces before ++ (name_of c ++ b' ' ∷ (spaces between ++ args)) in
    let parts =
      split_command-line before between (name_of c) args n.word n.some_byte n.short bare room in
    let rest = b' ' ∷ (spaces between ++ args) in
    let long : 1 ≤ length line =
      let whole = length-append (spaces before) (name_of c ++ rest) in
      let part = length-append (name_of c) rest in omega (arith, whole, part, n.some_byte) in
    shell_execute-line D disk a fuel scratch line (name_of c) args c s long parts n.found
