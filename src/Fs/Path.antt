-- ===== src/Fs/Path.antt =====
-- kernel/fs/path.c: splitting and normalising a path. A string is the list of its bytes before the
-- NUL, and `none` is the null pointer. The array of components keeps what it held beyond `count`.
-- The results are local variables of the callers, so the tests of `result` for null are left out.
pub mod Normalize
pub mod Plain
pub mod Split
pub mod Fits
mod Tests
use miyar_os.Base.{
  ℕ, zero, suc, ◌+◌, ◌-◌, Bool, true, false, not, ◌&&◌, Option, none, some, List, [], ◌∷◌, ◌++◌,
  length, ◌==◌, ltb, leb, if◌then◌else◌, update,
}

abbrev pub max_components : ℕ
max_components = 16

abbrev pub max_name : ℕ
max_name = 64

abbrev pub slash : ℕ
slash = b'/'

-- `path_t`
pub record SplitPath : Type 0 where
  pub components : ℕ → List ℕ
  pub count : ℕ
  pub absolute : Bool

-- `strcmp(a, b) == 0`
unfoldable pub same_string : List ℕ → List ℕ → Bool
same_string [] [] = true
same_string [] (b ∷ bs) = false
same_string (a ∷ as') [] = false
same_string (a ∷ as') (b ∷ bs) = (a == b) && same_string as' bs

abbrev pub dot : List ℕ
dot = b'.' ∷ []

abbrev pub dots : List ℕ
dots = b'.' ∷ b'.' ∷ []

-- The inner loop of `path_split`: a component with room for `room` more bytes, and what follows it.
unfoldable pub component : (room : ℕ) → List ℕ → Option (List ℕ × List ℕ)
component room [] = some ([], [])
component zero (c ∷ cs) = if c == slash then some ([], c ∷ cs) else none
component (suc room) (c ∷ cs) =
    let rest = component room cs in
    if c == slash
    then some ([], c ∷ cs)
    else elim rest [ none ↦ none | some (name, left) ↦ some (c ∷ name, left) ]

unfoldable pub skip_slash : List ℕ → List ℕ
skip_slash [] = []
skip_slash (c ∷ cs) = if c == slash then cs else c ∷ cs

-- The outer loop: `room` is `PATH_MAX_COMPONENTS - count`.
unfoldable pub split_loop : (room count : ℕ) → (ℕ → List ℕ) → List ℕ → Option ((ℕ → List ℕ) × ℕ)
split_loop room count a [] = some (a, count)
split_loop zero count a (c ∷ cs) = none
split_loop (suc room) count a (c ∷ cs) = elim (component (max_name - 1) (c ∷ cs)) [
  | none ↦ none
  | some (name, left) ↦ split_loop room (count + 1) (update a count name) (skip_slash left)
]

-- `a` is what the result's array held before.
unfoldable pub path_split : (a : ℕ → List ℕ) → Option (List ℕ) → Option SplitPath
path_split a none = none
path_split a (some []) = some (record { components = a; count = 0; absolute = false })
path_split a (some (c ∷ cs)) =
    let first = c == slash in
    elim (split_loop max_components 0 a (skip_slash (c ∷ cs))) [
      | none ↦ none
      | some (b, n) ↦ some (record { components = b; count = n; absolute = first })
    ]

-- `strcpy(path->components[write], component)` unless the indices are equal.
unfoldable pub move_component : (read write : ℕ) → (ℕ → List ℕ) → ℕ → List ℕ
move_component read write a = if write == read then a else update a write (a read)

-- A round of the loop of `path_normalize`.
unfoldable pub normalize_step : (absolute : Bool) (read write : ℕ) → (ℕ → List ℕ) → ℕ × (ℕ → List ℕ)
normalize_step absolute read write a =
    if same_string (a read) dot
    then (write, a)
    else if same_string (a read) dots
    then if ltb 0 write && not (same_string (a (write - 1)) dots)
      then (write - 1, a)
      else if not absolute
      then (suc write, move_component read write a)
      else (write, a)
    else (suc write, move_component read write a)

unfoldable pub normalize_loop :
    (rounds : ℕ) → (absolute : Bool) (read write : ℕ) → (ℕ → List ℕ) → ℕ × (ℕ → List ℕ)
normalize_loop zero absolute read write a = (write, a)
normalize_loop (suc n) absolute read write a =
    let (w, b) = normalize_step absolute read write a in normalize_loop n absolute (read + 1) w b

-- On a path that is there.
unfoldable pub path_normalize : SplitPath → SplitPath
path_normalize p =
    let (w, a) = normalize_loop p.count p.absolute 0 0 p.components in
    record p { components = a; count = w }

-- One of the copying loops of `path_build_absolute`.
unfoldable pub copy_components : (rounds i count : ℕ) → (source target : ℕ → List ℕ) → ℕ → List ℕ
copy_components zero i count source target = target
copy_components (suc n) i count source target =
    copy_components n (i + 1) (count + 1) source (update target count (source i))

-- The base path's components, then the input's, in a fresh `path_t`.
unfoldable pub join_paths : (a : ℕ → List ℕ) → (base input : SplitPath) → Option SplitPath
join_paths a base input =
    let first = copy_components base.count 0 0 base.components a in
    if ltb max_components (base.count + input.count)
    then none
    else some (record {
      components = copy_components input.count 0 base.count input.components first;
      count = base.count + input.count;
      absolute = base.absolute;
    })

-- The loop that prints the components: the output so far is the bytes before its NUL.
unfoldable pub print_loop : (rounds i : ℕ) → (ℕ → List ℕ) → (output : List ℕ) → Option (List ℕ)
print_loop zero i a output = some output
print_loop (suc n) i a output =
    let separator = if i == 0 then [] else slash ∷ [] in
    let rest = print_loop n (i + 1) a (output ++ separator ++ a i) in
    if leb 256 (length output + length separator + length (a i)) then none else rest

-- `path_build_absolute`, with the path to normalise at hand.
unfoldable pub print_normal : SplitPath → Option (List ℕ)
print_normal p = let q = path_normalize p in print_loop q.count 0 q.components (slash ∷ [])

unfoldable pub is_rooted : List ℕ → Bool
is_rooted [] = false
is_rooted (c ∷ cs) = c == slash

-- `a` is what the three local paths held before. The pointers are there.
pub path_build_absolute : (a : ℕ → List ℕ) → (current_path input : List ℕ) → Option (List ℕ)
path_build_absolute a current_path input =
    if is_rooted input
    then elim (path_split a (some input)) [ none ↦ none | some p ↦ print_normal p ]
    else elim (path_split a (some current_path)) [
      | none ↦ none
      | some base ↦ elim (path_split a (some input)) [
        | none ↦ none
        | some p ↦ elim (join_paths a base p) [ none ↦ none | some joined ↦ print_normal joined ]
      ]
    ]
