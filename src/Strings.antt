-- ===== src/Strings.antt =====
-- kernel/lib/string.c on a memory of bytes by address. A string that reaches the end of the address
-- space is not looked at. Loops without a counter take fuel, and `none` stands for fuel used up.
pub mod Holds
pub mod Compare
pub mod Copy
mod Tests
use miyar_os.Base.{
  ℕ, zero, suc, ◌+◌, ◌-◌, ◌%◌, Bool, not, ◌&&◌, Option, none, some, ◌==◌, leb, if◌then◌else◌,
  update,
}

-- Bytes by address.
abbrev pub Memory : Type 0
Memory = ℕ → ℕ

-- `int`: `negsuc n` is -(n + 1).
pub data ℤ : Type 0 where
  pos negsuc : ℕ → ℤ

-- `(unsigned char)a - (unsigned char)b`
unfoldable pub difference : (a b : ℕ) → ℤ
difference a b = if leb b a then pos (a - b) else negsuc (b - a - 1)

unfoldable pub memcpy : Memory → (dest src count : ℕ) → Memory
memcpy m dest src zero = m
memcpy m dest src (suc n) = memcpy (update m dest (m src)) (dest + 1) (src + 1) n

unfoldable pub memset : Memory → (dest value count : ℕ) → Memory
memset m dest value zero = m
memset m dest value (suc n) = memset (update m dest (value % 256)) (dest + 1) value n

unfoldable pub memcmp : Memory → (a b count : ℕ) → ℤ
memcmp m a b zero = pos 0
memcmp m a b (suc n) =
    let rest = memcmp m (a + 1) (b + 1) n in if m a == m b then rest else difference (m a) (m b)

unfoldable pub length_loop : (fuel : ℕ) → Memory → (str length : ℕ) → Option ℕ
length_loop zero m str n = none
length_loop (suc fuel) m str n =
    let rest = length_loop fuel m str (n + 1) in if m (str + n) == 0 then some n else rest

unfoldable pub strlen : (fuel : ℕ) → Memory → (str : ℕ) → Option ℕ
strlen fuel m str = length_loop fuel m str 0

unfoldable pub strcmp : (fuel : ℕ) → Memory → (a b : ℕ) → Option ℤ
strcmp zero m a b = none
strcmp (suc fuel) m a b =
    let rest = strcmp fuel m (a + 1) (b + 1) in
    if not (m a == 0) && (m a == m b) then rest else some (difference (m a) (m b))

-- The result of the copies is `dest`, and what is given here is the memory.
unfoldable pub strcpy : (fuel : ℕ) → Memory → (dest src : ℕ) → Option Memory
strcpy zero m dest src = none
strcpy (suc fuel) m dest src =
    let m' = update m dest (m src) in
    let rest = strcpy fuel m' (dest + 1) (src + 1) in if m src == 0 then some m' else rest

unfoldable pub fill_zeros : Memory → (dest count : ℕ) → Memory
fill_zeros m dest zero = m
fill_zeros m dest (suc n) = fill_zeros (update m dest 0) (dest + 1) n

unfoldable pub strncpy : Memory → (dest src count : ℕ) → Memory
strncpy m dest src zero = m
strncpy m dest src (suc n) =
    let rest = strncpy (update m dest (m src)) (dest + 1) (src + 1) n in
    if m src == 0 then fill_zeros m dest (suc n) else rest

unfoldable pub strncmp : Memory → (a b count : ℕ) → ℤ
strncmp m a b zero = pos 0
strncmp m a b (suc n) =
    let rest = strncmp m (a + 1) (b + 1) n in
    if not (m a == 0) && (m a == m b) then rest else difference (m a) (m b)

-- The first loop of `strcat`.
unfoldable pub string_end : (fuel : ℕ) → Memory → (dest : ℕ) → Option ℕ
string_end zero m dest = none
string_end (suc fuel) m dest =
    let rest = string_end fuel m (dest + 1) in if m dest == 0 then some dest else rest

-- The second loop of `strcat`, and the NUL after it.
unfoldable pub append_loop : (fuel : ℕ) → Memory → (dest source : ℕ) → Option Memory
append_loop zero m dest source = none
append_loop (suc fuel) m dest source =
    let rest = append_loop fuel (update m dest (m source)) (dest + 1) (source + 1) in
    if m source == 0 then some (update m dest 0) else rest

unfoldable pub strcat : (fuel : ℕ) → Memory → (destination source : ℕ) → Option Memory
strcat fuel m destination source = elim (string_end fuel m destination) [
  | none ↦ none
  | some dest ↦ append_loop fuel m dest source
]

unfoldable pub find_loop : (fuel : ℕ) → Memory → (str character last : ℕ) → Option ℕ
find_loop zero m str character last = none
find_loop (suc fuel) m str character last =
    let seen = if m str == character % 256 then str else last in
    let rest = find_loop fuel m (str + 1) character seen in
    if m str == 0 then some (if character == 0 then str else last) else rest

-- A pointer, 0 where there is none.
unfoldable pub strrchr : (fuel : ℕ) → Memory → (str character : ℕ) → Option ℕ
strrchr fuel m str character = find_loop fuel m str character 0
