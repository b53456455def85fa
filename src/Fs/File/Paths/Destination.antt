-- ===== src/Fs/File/Paths/Destination.antt =====
-- Where the destination of a move is looked for.
use miyar_os.Base.{
  ℕ, zero, suc, ◌+◌, ◌-◌, ◌<◌, ◌≡◌, ◌≢◌, refl, ap, ◌∙◌, true, false, Option, none, some, List, [],
  ◌∷◌, length, ◌==◌, leb, update, arith,
}
use miyar_os.Fs.Disk.{Drive}
use miyar_os.Fs.Mount.{FileSystem}
use miyar_os.Fs.Path.{
  SplitPath, path_split, path_normalize, normalize_loop, normalize_step, move_component,
  same_string, dot, dots, slash, split_loop, skip_slash,
}
use miyar_os.Fs.Path.Split.{is_name, component-single}
use miyar_os.Fs.Lookup.{path_lookup, lookup_parsed, lookup_loop}
use miyar_os.Fs.Directory.Entry.{Entry}
use miyar_os.Fs.Directory.Iterate.{directory_find_in_cluster}
use miyar_os.Fs.File.Paths.{parent_path, parent_loop, file_resolve_destination}

-- A name of one component.
pub record IsPlainName (name : List ℕ) : Type 0 where
  pub fits : is_name 63 name ≡ true
  pub filled : name ≢ []
  pub no_dot : same_string name dot ≡ false
  pub no_dots : same_string name dots ≡ false

abbrev single : (ℕ → List ℕ) → List ℕ → SplitPath
single a name = record { components = update a 0 name; count = 1; absolute = false }

path_split-relative :
    (a : ℕ → List ℕ) (c : ℕ) (cs : List ℕ) (f : ℕ → List ℕ) (n : ℕ)
    → c == slash ≡ false
    → split_loop 16 0 a (c ∷ cs) ≡ some (f, n)
    → path_split a (some (c ∷ cs)) ≡ some (record { components = f; count = n; absolute = false })
unfolding path_split skip_slash
path_split-relative a c cs f n other h =
    rw (path_split, other, h) (λ i. some (record { components = f; count = n; absolute = other i }))

path_split-single :
    (a : ℕ → List ℕ) (name : List ℕ)
    → IsPlainName name
    → path_split a (some name) ≡ some (single a name)
unfolding split_loop skip_slash is_name
path_split-single a [] n = absurd (n.filled refl)
path_split-single a (c ∷ cs) n =
    let other : c == slash ≡ false = ground arith in
    let cut = component-single 63 (c ∷ cs) n.fits in
    let split : split_loop 16 0 a (c ∷ cs) ≡ some (update a 0 (c ∷ cs), 1) = λ i.
      elim (cut i) as (λ o. Option ((ℕ → List ℕ) × ℕ)) [
        | none ↦ none
        | some (name, left) ↦ split_loop 15 1 (update a 0 name) (skip_slash left)
      ] in
    path_split-relative a c cs (update a 0 (c ∷ cs)) 1 other split

path_normalize-single :
    (a : ℕ → List ℕ) (name : List ℕ)
    → IsPlainName name
    → path_normalize (single a name) ≡ single a name
unfolding path_normalize normalize_loop normalize_step move_component
path_normalize-single a name n = rw (n.no_dot, n.no_dots)

is_name-length : (room : ℕ) (name : List ℕ) → is_name room name ≡ true → length name < room + 1
unfolding is_name
is_name-length room [] h = omega arith
is_name-length zero (c ∷ cs) h = absurd (ground arith)
is_name-length (suc room) (c ∷ cs) h =
    let rest : is_name room cs ≡ true = ground arith in omega (arith, is_name-length room cs rest)

parent_loop-single : (c : ℕ → List ℕ) → IsPlainName (c 0) → parent_loop 1 0 false c [] ≡ some (c 0)
unfolding parent_loop
parent_loop-single c n =
    let small = is_name-length 63 (c 0) n.fits in
    let short : leb 256 (0 + length (c 0)) ≡ false = ground arith in rw short

nonempty-path :
    (l : List ℕ)
    → l ≢ []
    → (elim l as (λ x. Option (List ℕ)) [ [] ↦ some dot | c ∷ cs ↦ some (c ∷ cs) ]) ≡ some l
nonempty-path [] ne = absurd (ne refl)
nonempty-path (c ∷ cs) ne = refl

parent_path-pair :
    (p : SplitPath)
    → p.count ≡ 2
    → p.absolute ≡ false
    → IsPlainName (p.components 0)
    → parent_path p ≡ some (p.components 0)
unfolding parent_path
parent_path-pair p two relative n =
    let one : p.count - 1 ≡ 1 = omega (arith, two) in
    rw (parent_path, one, relative, parent_loop-single p.components n)
      (nonempty-path (p.components 0) n.filled)

module _ (D : Drive) (disk : ℕ) (a : ℕ → List ℕ) (given : (disk == 0) ≡ false) where
  lookup_parsed-single :
      (fuel : ℕ) (f : FileSystem D) (name : List ℕ) (e : Entry) (parent : ℕ) (leaf : List ℕ)
      → IsPlainName name
      → directory_find_in_cluster D disk fuel f.volume f.current_directory_cluster name
        ≡ some (some e)
      → lookup_parsed D disk fuel f (single a name) parent leaf
        ≡ some (record { entry = some e; parent = f.current_directory_cluster; leaf = name })
  unfolding lookup_parsed lookup_loop
  lookup_parsed-single fuel f name e parent leaf n found = rw (n.no_dots, found)

  -- The look-up of a name in the current directory.
  path_lookup-single :
      (fuel : ℕ) (f : FileSystem D) (name : List ℕ) (e : Entry) (parent : ℕ) (leaf : List ℕ)
      → IsPlainName name
      → directory_find_in_cluster D disk fuel f.volume f.current_directory_cluster name
        ≡ some (some e)
      → path_lookup D disk a fuel f name parent leaf
        ≡ some (record { entry = some e; parent = f.current_directory_cluster; leaf = name })
  unfolding path_lookup
  path_lookup-single fuel f name e parent leaf n found =
      rw (given, path_split-single a name n)
        (ap (λ p. lookup_parsed D disk fuel f p parent leaf) (path_normalize-single a name n)
          ∙ lookup_parsed-single fuel f name e parent leaf n found)

  -- On a disk that is there, a destination of two components of a relative path, the first of them
  -- a plain name that is found in the current directory, is taken for the second name in the
  -- current directory, whatever cluster the directory of the first name has.
  pub file_resolve_destination-parent :
      (fuel : ℕ) (f : FileSystem D) (new_name : List ℕ) (split : SplitPath) (e : Entry) (parent : ℕ)
      → path_split a (some new_name) ≡ some split
      → (path_normalize split).count ≡ 2
      → (path_normalize split).absolute ≡ false
      → IsPlainName ((path_normalize split).components 0)
      → directory_find_in_cluster D disk fuel f.volume f.current_directory_cluster
          ((path_normalize split).components 0)
        ≡ some (some e)
      → file_resolve_destination D disk a fuel f new_name parent
        ≡ some (some (f.current_directory_cluster, (path_normalize split).components 1))
  unfolding file_resolve_destination
  file_resolve_destination-parent fuel f new_name split e parent h two relative n found = rw (
    file_resolve_destination,
    given,
    h,
    parent_path-pair (path_normalize split) two relative n,
    path_lookup-single fuel f ((path_normalize split).components 0) e parent [] n found,
    two,
  )
