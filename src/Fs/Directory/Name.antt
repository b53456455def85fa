-- ===== src/Fs/Directory/Name.antt =====
-- Names of eight characters and three, padded with spaces.
pub mod Parts
pub mod Steps
pub mod Laws
use miyar_os.Base.{
  ℕ, zero, suc, ◌+◌, ◌-◌, Bool, true, false, not, ◌&&◌, ◌||◌, Option, none, some, List, [], ◌∷◌,
  ◌++◌, ◌==◌, ltb, leb, if◌then◌else◌, update,
}
use miyar_os.Fs.Directory.Entry.{Entry}

abbrev pub space : ℕ
space = b' '

abbrev pub dot : ℕ
dot = b'.'

-- The bytes of a buffer before the first NUL, as the string that it holds.
unfoldable pub before_nul : List ℕ → List ℕ
before_nul [] = []
before_nul (c ∷ cs) = if c == 0 then [] else c ∷ before_nul cs

-- A loop of `directory_get_name`: up to `rounds` bytes, to the first space.
unfoldable pub copy_part : (rounds i : ℕ) → Entry → List ℕ
copy_part zero i e = []
copy_part (suc n) i e = if e i == space then [] else e i ∷ copy_part n (i + 1) e

unfoldable pub directory_get_name : Entry → List ℕ
directory_get_name e =
    before_nul (copy_part 8 0 e ++ (if e 8 == space then [] else dot ∷ copy_part 3 8 e))

-- `c -= 32` for a small letter.
unfoldable pub fold_case : ℕ → ℕ
fold_case c = if leb b'a' c && leb c b'z' then c - 32 else c

-- The local variables of `directory_set_name`.
pub record Short : Type 0 where
  pub bytes : ℕ → ℕ
  pub base_length : ℕ
  pub extension_length : ℕ
  pub in_extension : Bool

abbrev pub empty_short : Short
empty_short = record {
  bytes = λ k. space;
  base_length = 0;
  extension_length = 0;
  in_extension = false;
}

-- A character that is no dot.
unfoldable pub add_char : Short → ℕ → Option Short
add_char s c =
    if s.in_extension
    then if leb 3 s.extension_length
      then none
      else some (record s {
        bytes = update s.bytes (8 + s.extension_length) (fold_case c);
        extension_length = suc s.extension_length;
      })
    else if leb 8 s.base_length
    then none
    else some (record s {
      bytes = update s.bytes s.base_length (fold_case c);
      base_length = suc s.base_length;
    })

unfoldable pub add_dot : Short → Option Short
add_dot s =
    if s.in_extension || (s.base_length == 0) then none else some (record s { in_extension = true })

unfoldable pub name_loop : List ℕ → Short → Option Short
name_loop [] s = some s
name_loop (c ∷ cs) s = elim (if c == dot then add_dot s else add_char s c) [
  | none ↦ none
  | some t ↦ name_loop cs t
]

-- The entry with the name, `none` for false, where the entry is left as it is.
unfoldable pub directory_set_name : Entry → List ℕ → Option Entry
directory_set_name e name = elim (name_loop name empty_short) [
  | none ↦ none
  | some s ↦
      if (s.base_length == 0) || (s.in_extension && (s.extension_length == 0))
      then none
      else some (λ k. if ltb k 11 then s.bytes k else e k)
]
