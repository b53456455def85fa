-- ===== src/Shell/Parse.antt =====
-- How the shell takes a line apart. A string is the list of its bytes before the NUL.
pub mod Words
pub mod Split
use miyar_os.Base.{
  ℕ, zero, suc, ◌-◌, Bool, true, false, not, ◌&&◌, Option, none, some, List, [], ◌∷◌, take, ◌==◌,
  if◌then◌else◌,
}

-- Whether `*a == *b` where the walk of `streq` ends, at the end of one string or of both.
unfoldable pub streq : List ℕ → List ℕ → Bool
streq [] [] = true
streq [] (b ∷ bs) = 0 == b
streq (a ∷ as') [] = a == 0
streq (a ∷ as') (b ∷ bs) = if not (a == b) then false else streq as' bs

-- `while (*input == ' ') input++;`
unfoldable pub skip_spaces : List ℕ → List ℕ
skip_spaces [] = []
skip_spaces (c ∷ cs) = if c == b' ' then skip_spaces cs else c ∷ cs

-- The bytes up to a space, with room for `room` of them, and what follows.
unfoldable pub take_word : (room : ℕ) → List ℕ → List ℕ × List ℕ
take_word zero input = ([], input)
take_word (suc n) [] = ([], [])
take_word (suc n) (c ∷ cs) =
    let (word, rest) = take_word n cs in if c == b' ' then ([], c ∷ cs) else (c ∷ word, rest)

-- `while (**input && **input != ' ') (*input)++;`
unfoldable pub skip_word : List ℕ → List ℕ
skip_word [] = []
skip_word (c ∷ cs) = if c == b' ' then c ∷ cs else skip_word cs

-- The command and its arguments.
unfoldable pub split_command : List ℕ → List ℕ × List ℕ
unfolding skip_spaces take_word
split_command input =
    let (command, rest) = take_word 31 (skip_spaces input) in (command, take 223 (skip_spaces rest))

-- The next word and what follows it, `none` for false. `size` is that of the output buffer, and the
-- pointers are there.
unfoldable pub get_next_argument : (size : ℕ) → List ℕ → Option (List ℕ × List ℕ)
unfolding skip_spaces take_word skip_word
get_next_argument size input = if size == 0 then none else elim (skip_spaces input) [
  | [] ↦ none
  | c ∷ cs ↦ let (word, rest) = take_word (size - 1) (c ∷ cs) in some (word, skip_word rest)
]

-- `s[0] == '\0'`
unfoldable pub is_empty : List ℕ → Bool
is_empty [] = true
is_empty (c ∷ cs) = false
