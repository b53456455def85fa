-- ===== src/Shell/Tests.antt =====
-- The shell's theorems at lines of a user.
use miyar_os.Base.{◌≡◌, refl, true, some, [], ◌∷◌, ◌++◌, take, map, arith}
use miyar_os.Base.Text.{codes}
use miyar_os.Fs.Disk.Memory.{memory}
use miyar_os.Fs.File.Paths.{file_create}
use miyar_os.Shell.{say}
use miyar_os.Shell.Parse.{streq, split_command}
use miyar_os.Shell.Parse.Split.{spaces, starts_bare}
use miyar_os.Shell.Parse.Words.{words, words_after, close}
use miyar_os.Shell.Files.{all_arguments}
use miyar_os.Shell.Files.Laws.{on_names, all_arguments-words}
use miyar_os.Shell.Echo.{parse_echo}
use miyar_os.Shell.Echo.Parsed.{has_no_mark, ends_bare, starts_name, mark, parse_echo-redirect}
use miyar_os.Shell.Execute.{cat, run_command, shell_execute}
use miyar_os.Shell.Execute.Reads.{Leaves}
use miyar_os.Shell.Execute.Laws.{NoneOf, no_more, not_this, changing, shell_execute-Leaves}
use miyar_os.Shell.Execute.Names.{name_of, shell_execute-name_of}
use miyar_os.Shell.Sample.{shell, no_names, blank}

all_arguments-words_example :
    all_arguments (file_create memory 1 no_names 5) (codes " A  B ") shell
    ≡ on_names (file_create memory 1 no_names 5) (map (take 63) (words (codes " A  B "))) shell
all_arguments-words_example =
    all_arguments-words (file_create memory 1 no_names 5) (codes " A  B ") shell

two_words : words (codes " A  B ") ≡ codes "A" ∷ codes "B" ∷ []
unfolding words words_after close
two_words = refl

ls_changes_nothing : NoneOf (split_command (codes "ls D")).0 changing
unfolding split_command streq
ls_changes_nothing = not_this refl (
    not_this refl (
      not_this refl
        (not_this refl (not_this refl (not_this refl (not_this refl (not_this refl no_more)))))))

shell_execute-Leaves_example :
    Leaves shell.fs
      (split_command (codes "ls D")).0
      (shell_execute memory 1 no_names 5 blank (codes "ls D") shell)
shell_execute-Leaves_example =
    shell_execute-Leaves memory 1 no_names 5 blank (codes "ls D") shell ls_changes_nothing

arguments_bare : starts_bare (codes "A.TXT") ≡ true
unfolding starts_bare
arguments_bare = refl

shell_execute-name_of_example :
    shell_execute memory 1 no_names 5 blank
      (spaces 1 ++ (name_of cat ++ b' ' ∷ (spaces 2 ++ codes "A.TXT")))
      shell
    ≡ run_command memory 1 no_names 5 blank cat (codes "A.TXT") (say [] shell)
shell_execute-name_of_example =
    shell_execute-name_of memory 1 no_names 5 blank cat 1 2 (codes "A.TXT") shell arguments_bare
      (omega arith)

text_unmarked : has_no_mark (codes "a b") ≡ true
unfolding has_no_mark
text_unmarked = refl

text_bare : ends_bare (codes "a b") ≡ true
unfolding ends_bare
text_bare = refl

named : starts_name (codes "F") ≡ true
unfolding starts_name starts_bare
named = refl

parse_echo-redirect_example :
    parse_echo ((codes "a b" ++ spaces 1) ++ (mark true ++ (spaces 1 ++ codes "F")))
    ≡ some (record { text = codes "a b"; append = true; filename = codes "F" })
parse_echo-redirect_example =
    parse_echo-redirect (codes "a b") (codes "F") true 1 1 text_unmarked text_bare (omega arith)
      named (omega arith)
