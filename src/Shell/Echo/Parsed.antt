-- ===== src/Shell/Echo/Parsed.antt =====
-- A redirection of `echo` is read as it was written.
use miyar_os.Base.{
  ℕ, zero, suc, ◌≤◌, ◌≡◌, refl, inl, inr, Bool, true, false, some, List, [], ◌∷◌, ◌++◌, take-all,
  length, ◌==◌, if◌then◌else◌, Bool-cases,
}
use miyar_os.Shell.Parse.Split.{spaces, starts_bare, skip_spaces-spaces}
use miyar_os.Shell.Echo.{trim, after_mark, find_redirect, parse_echo}

-- No byte of the text is a `>`.
unfoldable pub has_no_mark : List ℕ → Bool
has_no_mark [] = true
has_no_mark (c ∷ cs) = if c == b'>' then false else has_no_mark cs

-- The text does not end in a space.
unfoldable pub ends_bare : List ℕ → Bool
ends_bare [] = true
ends_bare (c ∷ []) = if c == b' ' then false else true
ends_bare (c ∷ d ∷ ds) = ends_bare (d ∷ ds)

-- The text starts neither with a space nor with a `>`.
unfoldable pub starts_name : List ℕ → Bool
starts_name [] = true
starts_name (c ∷ cs) = if c == b'>' then false else starts_bare (c ∷ cs)

-- The mark of a redirection.
unfoldable pub mark : (append : Bool) → List ℕ
mark true = b'>' ∷ b'>' ∷ []
mark false = b'>' ∷ []

trim-spaces : (n : ℕ) → trim (spaces n) ≡ []
unfolding trim spaces
trim-spaces zero = refl
trim-spaces (suc n) = rw (trim-spaces n) refl

trim-text : (text : List ℕ) (n : ℕ) → ends_bare text ≡ true → trim (text ++ spaces n) ≡ text
unfolding trim ends_bare
trim-text [] n h = trim-spaces n
trim-text (c ∷ []) n h = elim (Bool-cases (c == b' ')) [
  | inl blank ↦ cc
  | inr letter ↦ rw (trim, trim-spaces n, letter) refl
]
trim-text (c ∷ d ∷ ds) n h = rw (trim, trim-text (d ∷ ds) n h) refl

find_redirect-mark :
    (before after : List ℕ)
    → has_no_mark before ≡ true
    → find_redirect (before ++ (b'>' ∷ after)) ≡ some (before, after)
unfolding find_redirect has_no_mark
find_redirect-mark [] after h = refl
find_redirect-mark (c ∷ cs) after h = elim (Bool-cases (c == b'>')) [
  | inl is ↦ cc
  | inr other ↦
      let rest : has_no_mark cs ≡ true = cc in
      rw (find_redirect, other, find_redirect-mark cs after rest) refl
]

has_no_mark-spaces :
    (text : List ℕ) (n : ℕ) → has_no_mark text ≡ true → has_no_mark (text ++ spaces n) ≡ true
unfolding has_no_mark spaces
has_no_mark-spaces [] zero h = refl
has_no_mark-spaces [] (suc n) h = has_no_mark-spaces [] n h
has_no_mark-spaces (c ∷ cs) n h = elim (Bool-cases (c == b'>')) [
  | inl is ↦ cc
  | inr other ↦ let rest : has_no_mark cs ≡ true = cc in rw (other) (has_no_mark-spaces cs n rest)
]

after_mark-name :
    (n : ℕ) (name : List ℕ)
    → starts_name name ≡ true
    → after_mark (spaces n ++ name) ≡ (false, spaces n ++ name)
unfolding after_mark spaces starts_name
after_mark-name zero [] h = refl
after_mark-name zero (c ∷ cs) h = elim (Bool-cases (c == b'>')) [
  | inl is ↦ cc
  | inr other ↦ rw (other) refl
]
after_mark-name (suc n) name h = refl

starts_name-bare : (name : List ℕ) → starts_name name ≡ true → starts_bare name ≡ true
unfolding starts_name starts_bare
starts_name-bare [] h = refl
starts_name-bare (c ∷ cs) h = elim (Bool-cases (c == b'>')) [ inl is ↦ cc | inr other ↦ cc ]

-- A text of at most 255 bytes without a `>` that does not end in a space, and a name of at most 127
-- bytes that starts neither with a space nor with a `>`, with `>` or `>>` and any spaces between
-- them, are read as the text, the name, and whether to append.
pub parse_echo-redirect :
    (text name : List ℕ) (append : Bool) (before after : ℕ)
    → has_no_mark text ≡ true
    → ends_bare text ≡ true
    → length text ≤ 255
    → starts_name name ≡ true
    → length name ≤ 127
    → parse_echo ((text ++ spaces before) ++ (mark append ++ (spaces after ++ name)))
      ≡ some (record { text = text; append = append; filename = name })
unfolding parse_echo mark after_mark
parse_echo-redirect text name true before after unmarked bare room named short =
    rw
      (
        parse_echo,
        find_redirect-mark (text ++ spaces before) (b'>' ∷ (spaces after ++ name))
            (has_no_mark-spaces text before unmarked),
        trim-text text before bare,
        take-all 255 text room,
        skip_spaces-spaces after name (starts_name-bare name named),
        take-all 127 name short,
      )
      refl
parse_echo-redirect text name false before after unmarked bare room named short =
    rw
      (
        parse_echo,
        find_redirect-mark (text ++ spaces before) (spaces after ++ name)
            (has_no_mark-spaces text before unmarked),
        trim-text text before bare,
        after_mark-name after name named,
        take-all 255 text room,
        skip_spaces-spaces after name (starts_name-bare name named),
        take-all 127 name short,
      )
      refl
