-- ===== src/Fs/Path/Tests.antt =====
-- The path theorems at paths of a few components.
use miyar_os.Base.{
  ℕ, ◌<◌, ◌≡◌, ◌≢◌, refl, true, false, some, List, [], ◌∷◌, ◌==◌, if◌then◌else◌, update, arith,
}
use miyar_os.Fs.Path.{
  SplitPath, same_string, dot, dots, slash, path_split, print_loop, normalize_step, normalize_loop,
  move_component, path_normalize, component, skip_slash, split_loop,
}
use miyar_os.Fs.Path.Normalize.{stack_of, names_of, resolve, path_normalize-resolve}
use miyar_os.Fs.Path.Plain.{path_normalize-plain}
use miyar_os.Fs.Path.Split.{AreNames, is_name, path_split-print}

abbrev letters : ℕ → List ℕ
letters k = if k == 0 then b'a' ∷ b'b' ∷ [] else if k == 1 then dots else b'c' ∷ []

-- "/ab/../c"
abbrev climbing : SplitPath
climbing = record { components = letters; count = 3; absolute = true }

path_normalize-resolve_example :
    let q = path_normalize climbing in
    (stack_of q.count q.components ≡ resolve true (names_of 3 0 letters) []) × (q.absolute ≡ true)
path_normalize-resolve_example = path_normalize-resolve climbing

climbing_count : (path_normalize climbing).count ≡ 1
unfolding path_normalize normalize_loop normalize_step move_component same_string
climbing_count = refl

path_normalize-plain_example :
    (same_string ((path_normalize climbing).components 0) dot ≡ false)
    × (same_string ((path_normalize climbing).components 0) dots ≡ false)
path_normalize-plain_example = path_normalize-plain climbing refl 0 (omega (arith, climbing_count))

abbrev plain_names : ℕ → List ℕ
plain_names k = if k == 0 then b'a' ∷ b'b' ∷ [] else b'c' ∷ []

abbrev printed : List ℕ
printed = slash ∷ b'a' ∷ b'b' ∷ slash ∷ b'c' ∷ []

printed-run : print_loop 2 0 plain_names (slash ∷ []) ≡ some printed
unfolding print_loop
printed-run = refl

filled : (c : ℕ) (cs : List ℕ) → c ∷ cs ≢ []
filled c cs e = absurd (ground arith)

plain_names-AreNames : AreNames 2 0 plain_names
unfolding is_name
plain_names-AreNames = record {
  fit = λ i lo hi.
      elim (i == 0) as (λ b. is_name 63 (if b then b'a' ∷ b'b' ∷ [] else b'c' ∷ []) ≡ true) [
        | true ↦ refl
        | false ↦ refl
      ];
  filled = λ i lo hi.
      elim (i == 0) as (λ b. if◌then◌else◌ {A = List ℕ} b (b'a' ∷ b'b' ∷ []) (b'c' ∷ []) ≢ []) [
        | true ↦ filled _ _
        | false ↦ filled _ _
      ];
}

path_split-print_example :
    (q : SplitPath) × (path_split letters (some printed) ≡ some q)
    × (q.count ≡ 2)
    × (q.absolute ≡ true)
    × ((k : ℕ) → k < 2 → q.components k ≡ plain_names k)
path_split-print_example =
    path_split-print 2 plain_names letters printed (omega arith) plain_names-AreNames printed-run

-- A doubled slash leaves an empty component.
doubled_slash :
    path_split plain_names (some (b'a' ∷ slash ∷ slash ∷ b'c' ∷ []))
    ≡ some (record {
      components = update (update (update plain_names 0 (b'a' ∷ [])) 1 []) 2 (b'c' ∷ []);
      count = 3;
      absolute = false;
    })
unfolding path_split split_loop component skip_slash
doubled_slash = refl

split_plain :
    path_split letters (some printed)
    ≡ some (record {
      components = update (update letters 0 (b'a' ∷ b'b' ∷ [])) 1 (b'c' ∷ []);
      count = 2;
      absolute = true;
    })
unfolding path_split split_loop component skip_slash
split_plain = refl
