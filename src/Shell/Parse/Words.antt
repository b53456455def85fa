-- ===== src/Shell/Parse/Words.antt =====
-- The arguments of a command as a list of words.
use mathlib.Core.List.{append-nil, append_assoc}
use miyar_os.Base.{
  ℕ, zero, suc, ◌-◌, ◌≤◌, ◌<◌, ◌≡◌, refl, ◌∙◌, true, false, none, some, List, [], ◌∷◌, ◌++◌, take,
  length, ◌==◌, if◌then◌else◌, inl, inr, Bool-cases, ==-ne, arith,
}
use miyar_os.Shell.Parse.{skip_spaces, take_word, skip_word, get_next_argument}

-- The words of a text: a word ends at a space or with the text, and none is empty. `current` is
-- what was read of a word.
unfoldable pub close : (current : List ℕ) → List (List ℕ) → List (List ℕ)
close [] ws = ws
close (c ∷ cs) ws = (c ∷ cs) ∷ ws

unfoldable pub words_after : (current : List ℕ) → List ℕ → List (List ℕ)
unfolding close
words_after current [] = close current []
words_after current (c ∷ cs) =
    let ended = close current (words_after [] cs) in
    if c == b' ' then ended else words_after (current ++ c ∷ []) cs

unfoldable pub words : List ℕ → List (List ℕ)
unfolding words_after
words = words_after []

-- The text up to its first space.
unfoldable pub first_word : List ℕ → List ℕ
first_word [] = []
first_word (c ∷ cs) = if c == b' ' then [] else c ∷ first_word cs

words_after-skip_spaces : (cs : List ℕ) → words_after [] cs ≡ words_after [] (skip_spaces cs)
unfolding words_after close skip_spaces
words_after-skip_spaces [] = refl
words_after-skip_spaces (c ∷ cs) = elim (Bool-cases (c == b' ')) [
  | inl blank ↦ rw (blank) (words_after-skip_spaces cs)
  | inr letter ↦ rw (letter, letter) refl
]

words_after-first_word :
    (d : ℕ) (ds cs : List ℕ)
    → words_after (d ∷ ds) cs ≡ ((d ∷ ds) ++ first_word cs) ∷ words_after [] (skip_word cs)
unfolding words_after close first_word skip_word
words_after-first_word d ds [] = rw (append-nil) refl
words_after-first_word d ds (c ∷ cs) = elim (Bool-cases (c == b' ')) [
  | inl blank ↦ rw (blank, append-nil, blank) refl
  | inr letter ↦ rw (letter, words_after-first_word d (ds ++ c ∷ []) cs, append_assoc) refl
]

take_word-first_word : (n : ℕ) (cs : List ℕ) → (take_word n cs).0 ≡ take n (first_word cs)
unfolding take_word first_word
take_word-first_word zero cs = refl
take_word-first_word (suc n) [] = refl
take_word-first_word (suc n) (c ∷ cs) = elim (Bool-cases (c == b' ')) [
  | inl blank ↦ rw (blank) refl
  | inr letter ↦ rw (letter, take_word-first_word n cs) refl
]

take_word-skip_word : (n : ℕ) (cs : List ℕ) → skip_word (take_word n cs).1 ≡ skip_word cs
unfolding take_word skip_word
take_word-skip_word zero cs = refl
take_word-skip_word (suc n) [] = refl
take_word-skip_word (suc n) (c ∷ cs) = elim (Bool-cases (c == b' ')) [
  | inl blank ↦ rw (blank, blank) refl
  | inr letter ↦ rw (letter, take_word-skip_word n cs) refl
]

skip_word-length : (cs : List ℕ) → length (skip_word cs) ≤ length cs
unfolding skip_word
skip_word-length [] = omega arith
skip_word-length (c ∷ cs) =
    let below = skip_word-length cs in
    elim (Bool-cases (c == b' ')) [
      | inl blank ↦ rw (blank) omega arith
      | inr letter ↦ rw (letter) (omega (arith, below))
    ]

-- What `get_next_argument` finds in a text, by its words.
pub data Next (n : ℕ) (args : List ℕ) : Type 0 where
  finished : words args ≡ [] → get_next_argument (suc n) args ≡ none → Next n args
  next :
      (word rest : List ℕ)
      → words args ≡ word ∷ words rest
      → get_next_argument (suc n) args ≡ some (take n word, rest)
      → length rest < length args
      → Next n args

skip_spaces-letter : (c : ℕ) (cs : List ℕ) → (c == b' ') ≡ false → skip_spaces (c ∷ cs) ≡ c ∷ cs
unfolding skip_spaces
skip_spaces-letter c cs letter = rw (letter) refl

-- What `get_next_argument` returns where a word starts.
get_next_argument-word :
    (n c : ℕ) (cs : List ℕ)
    → (c == b' ') ≡ false
    → get_next_argument (suc n) (c ∷ cs) ≡ some (take n (first_word (c ∷ cs)), skip_word (c ∷ cs))
unfolding get_next_argument
get_next_argument-word n c cs letter =
    let less : suc n - 1 ≡ n = omega arith in
    rw
      (
        ==-ne (suc n) 0 (λ e. absurd (omega (arith, e))),
        skip_spaces-letter c cs letter,
        less,
        take_word-first_word n (c ∷ cs),
        take_word-skip_word n (c ∷ cs),
      )
      refl

-- A space before the text changes nothing.
get_next_argument-space :
    (n c : ℕ) (cs : List ℕ)
    → (c == b' ') ≡ true
    → get_next_argument (suc n) (c ∷ cs) ≡ get_next_argument (suc n) cs
unfolding get_next_argument skip_spaces
get_next_argument-space n c cs blank = rw (blank) refl

get_next_argument-nothing : (n : ℕ) → get_next_argument (suc n) [] ≡ none
unfolding get_next_argument skip_spaces
get_next_argument-nothing n = elim (Bool-cases (suc n == 0)) [
  | inl t ↦ rw (t) refl
  | inr t ↦ rw (t) refl
]

words-space : (c : ℕ) (cs : List ℕ) → (c == b' ') ≡ true → words (c ∷ cs) ≡ words cs
unfolding words words_after close
words-space c cs blank = rw (blank) refl

words-word :
    (c : ℕ) (cs : List ℕ)
    → (c == b' ') ≡ false
    → words (c ∷ cs) ≡ first_word (c ∷ cs) ∷ words (skip_word (c ∷ cs))
unfolding words words_after first_word skip_word
words-word c cs letter = rw (letter, words_after-first_word c [] cs) refl

pub next_lem : (n : ℕ) (args : List ℕ) → Next n args
unfolding words words_after close skip_word
next_lem n [] = finished refl (get_next_argument-nothing n)
next_lem n (c ∷ cs) = elim (Bool-cases (c == b' ')) [
  | inl blank ↦
      let w = words-space c cs blank in
      let g = get_next_argument-space n c cs blank in
      elim (next_lem n cs) [
        | finished w' g' ↦ finished (w ∙ w') (g ∙ g')
        | next word rest w' g' l ↦ next word rest (w ∙ w') (g ∙ g') (omega (arith, l))
      ]
  | inr letter ↦
      let shorter : length (skip_word (c ∷ cs)) < length (c ∷ cs) =
        rw (letter) (omega (arith, skip_word-length cs)) in
      next (first_word (c ∷ cs)) (skip_word (c ∷ cs)) (words-word c cs letter)
        (get_next_argument-word n c cs letter) shorter
]
