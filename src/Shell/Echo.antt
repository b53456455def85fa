-- ===== src/Shell/Echo.antt =====
-- `cmd_echo` of kernel/shell.c. A result `none` stands for a search or a loop that does not end.
pub mod Parsed
use miyar_os.Base.{
  ℕ, ◌-◌, ◌^◌, Bool, true, false, not, Option, none, some, List, [], ◌∷◌, take, length, ◌==◌,
  if◌then◌else◌,
}
use miyar_os.Base.Text.{codes}
use miyar_os.Drivers.Terminal.{terminal_write_hex}
use miyar_os.Fs.Disk.{Drive}
use miyar_os.Fs.Mount.{FileSystem}
use miyar_os.Fs.Lookup.{Lookup, path_lookup}
use miyar_os.Fs.Directory.Entry.{is_directory}
use miyar_os.Fs.File.{Count, bytes, error, file_open}
use miyar_os.Fs.File.Write.{file_write, file_append}
use miyar_os.Fs.File.Paths.{file_create}
use miyar_os.Fs.File.Copy.{byte_at}
use miyar_os.Shell.{Shell, on_terminal, say, with_fs}
use miyar_os.Shell.Parse.{skip_spaces, is_empty}
use miyar_os.Shell.Commands.{with_disk}

-- What `cmd_echo` is asked to do.
pub record Redirect : Type 0 where
  pub text : List ℕ
  pub append : Bool
  pub filename : List ℕ

-- `text_length--` while the text ends in a space.
unfoldable pub trim : List ℕ → List ℕ
trim [] = []
trim (c ∷ cs) =
    let rest = trim cs in elim rest [ [] ↦ if c == b' ' then [] else c ∷ [] | d ∷ ds ↦ c ∷ d ∷ ds ]

-- What follows the first `>`: whether it is another one, and the text after the one or the two.
unfoldable pub after_mark : List ℕ → Bool × List ℕ
after_mark [] = (false, [])
after_mark (c ∷ cs) = if c == b'>' then (true, cs) else (false, c ∷ cs)

-- The text before the first `>` and what follows it, `none` without one.
unfoldable pub find_redirect : List ℕ → Option (List ℕ × List ℕ)
find_redirect [] = none
find_redirect (c ∷ cs) =
    let rest = find_redirect cs in
    if c == b'>'
    then some ([], cs)
    else elim rest [ none ↦ none | some (before, after) ↦ some (c ∷ before, after) ]

unfoldable pub parse_echo : List ℕ → Option Redirect
unfolding find_redirect trim after_mark
parse_echo args = elim (find_redirect args) [
  | none ↦ none
  | some (before, after) ↦
      let (append, name) = after_mark after in
      some (record {
        text = take 255 (trim before);
        append = append;
        filename = take 127 (skip_spaces name);
      })
]

module _ (D : Drive) (disk : ℕ) (a : ℕ → List ℕ) (fuel : ℕ) (scratch : ℕ → ℕ) where
  -- The write to a file that was found.
  unfoldable pub write_text : (d : ℕ) → Redirect → Lookup → Shell D → Option (Shell D)
  write_text d r l s = elim l.entry [
    | none ↦ some (say (codes "File not found.") s)
    | some e ↦
        if is_directory e
        then some (say (codes "Cannot write to a directory.") s)
        else elim (file_open d l.parent e) [
          | none ↦ some (say (codes "Unable to open file.") s)
          | some file ↦
              let operation = if r.append then file_append D d else file_write D d in
              elim (operation fuel scratch (byte_at r.text) s.fs.volume file (length r.text)) [
                | none ↦ none
                | some w ↦
                    let s' = with_fs (record s.fs { volume = w.volume }) s in
                    elim w.result [
                      | bytes n ↦ some s'
                      | error c ↦ some (
                          say [] (
                            on_terminal (terminal_write_hex (2 ^ 32 - c))
                              (say (codes "Write failed.") s')))
                    ]
              ]
        ]
  ]

  unfoldable pub redirect_on : Redirect → (d : ℕ) → Shell D → Option (Shell D)
  unfolding write_text
  redirect_on r d s = elim (path_lookup D d a fuel s.fs r.filename 0 []) [
    | none ↦ none
    | some l ↦ elim l.entry [
      | some e ↦ write_text d r l s
      | none ↦ elim (file_create D d a fuel s.fs r.filename) [
        | none ↦ none
        | some (false, f) ↦ some (say (codes "Failed to create file.") (with_fs f s))
        | some (true, f) ↦ elim (path_lookup D d a fuel f r.filename 0 []) [
          | none ↦ none
          | some l' ↦ write_text d r l' (with_fs f s)
        ]
      ]
    ]
  ]

  unfoldable pub cmd_echo : (args : List ℕ) → Shell D → Option (Shell D)
  unfolding parse_echo redirect_on with_disk is_empty
  cmd_echo args s = elim (parse_echo args) [
    | none ↦ some (say args s)
    | some r ↦
        if is_empty r.filename
        then some (say (codes "Usage: echo <text> > <file>") s)
        else with_disk D disk (redirect_on r) s
  ]
