-- ===== src/Shell/Parse/Split.antt =====
-- A line that is taken apart gives back the command and the arguments it was made of.
use miyar_os.Base.{
  ℕ, zero, suc, ◌≤◌, ◌≡◌, refl, Bool, true, false, List, [], ◌∷◌, ◌++◌, take-all, length, ◌==◌,
  if◌then◌else◌, inl, inr, Bool-cases, arith,
}
use miyar_os.Shell.Parse.{skip_spaces, take_word, split_command, streq}
use miyar_os.Fs.Path.{same_string}

-- A text of spaces.
unfoldable pub spaces : ℕ → List ℕ
spaces zero = []
spaces (suc n) = b' ' ∷ spaces n

-- No byte of the text is a space.
unfoldable pub is_word : List ℕ → Bool
is_word [] = true
is_word (c ∷ cs) = if c == b' ' then false else is_word cs

-- The text does not start with a space.
unfoldable pub starts_bare : List ℕ → Bool
starts_bare [] = true
starts_bare (c ∷ cs) = if c == b' ' then false else true

pub skip_spaces-spaces :
    (n : ℕ) (text : List ℕ) → starts_bare text ≡ true → skip_spaces (spaces n ++ text) ≡ text
unfolding skip_spaces spaces starts_bare
skip_spaces-spaces zero [] h = refl
skip_spaces-spaces zero (c ∷ cs) h = elim (Bool-cases (c == b' ')) [
  | inl blank ↦ cc
  | inr letter ↦ rw (letter) refl
]
skip_spaces-spaces (suc n) text h = skip_spaces-spaces n text h

take_word-word :
    (n : ℕ) (word rest : List ℕ)
    → is_word word ≡ true
    → length word ≤ n
    → take_word n (word ++ b' ' ∷ rest) ≡ (word, b' ' ∷ rest)
unfolding take_word is_word
take_word-word zero [] rest w l = refl
take_word-word (suc n) [] rest w l = refl
take_word-word zero (c ∷ cs) rest w l = absurd (omega (arith, l))
take_word-word (suc n) (c ∷ cs) rest w l = elim (Bool-cases (c == b' ')) [
  | inl blank ↦ cc
  | inr letter ↦
      let w' : is_word cs ≡ true = cc in
      rw (letter, take_word-word n cs rest w' (omega (arith, l))) refl
]

word-starts_bare :
    (word rest : List ℕ) → is_word word ≡ true → 1 ≤ length word → starts_bare (word ++ rest) ≡ true
unfolding is_word starts_bare
word-starts_bare [] rest w some_byte = absurd (omega (arith, some_byte))
word-starts_bare (c ∷ cs) rest w some_byte = elim (Bool-cases (c == b' ')) [
  | inl blank ↦ cc
  | inr letter ↦ rw (letter) refl
]

-- A line made of a command of at most 31 bytes that are not spaces, of one at least, and of
-- arguments of at most 223 bytes that do not start with a space, with any spaces before each and at
-- least one between them, is split into the command and the arguments as they were.
pub split_command-line :
    (before between : ℕ) (command args : List ℕ)
    → is_word command ≡ true
    → 1 ≤ length command
    → length command ≤ 31
    → starts_bare args ≡ true
    → length args ≤ 223
    → split_command (spaces before ++ (command ++ b' ' ∷ (spaces between ++ args)))
      ≡ (command, args)
unfolding split_command skip_spaces
split_command-line before between command args w some_byte short bare room =
    rw
      (
        split_command,
        skip_spaces-spaces before (command ++ b' ' ∷ (spaces between ++ args))
            (word-starts_bare command (b' ' ∷ (spaces between ++ args)) w some_byte),
        take_word-word 31 command (spaces between ++ args) w short,
        skip_spaces-spaces between args bare,
        take-all 223 args room,
      )
      refl

-- The comparison of the shell and `strcmp` agree on strings of bytes, of which none is 0.
unfoldable pub has_no_nul : List ℕ → Bool
has_no_nul [] = true
has_no_nul (c ∷ cs) = if c == 0 then false else has_no_nul cs

streq-same_string :
    (a b : List ℕ) → has_no_nul a ≡ true → has_no_nul b ≡ true → streq a b ≡ same_string a b
unfolding streq same_string has_no_nul
streq-same_string [] [] ha hb = refl
streq-same_string [] (b ∷ bs) ha hb = elim (Bool-cases (b == 0)) [
  | inl z ↦ cc
  | inr n ↦ ground arith
]
streq-same_string (a ∷ as') [] ha hb = elim (Bool-cases (a == 0)) [ inl z ↦ cc | inr n ↦ n ]
streq-same_string (a ∷ as') (b ∷ bs) ha hb =
    let ha' : has_no_nul as' ≡ true = elim (Bool-cases (a == 0)) [ inl z ↦ cc | inr n ↦ cc ] in
    let hb' : has_no_nul bs ≡ true = elim (Bool-cases (b == 0)) [ inl z ↦ cc | inr n ↦ cc ] in
    elim (Bool-cases (a == b)) [
      | inl e ↦ rw (e) (streq-same_string as' bs ha' hb')
      | inr n ↦ rw (n) refl
    ]
