-- ===== src/Fs/Path/Split.antt =====
-- Splitting what was printed.
use mathlib.Core.List.{append-nil, append_assoc}
use miyar_os.Base.{
  ℕ, zero, suc, ◌+◌, ◌-◌, ◌<◌, ◌≤◌, ◌≡◌, ◌≢◌, inl, inr, refl, sym, ap, ◌∙◌, Bool, true, false, not,
  ◌&&◌, Option, none, some, List, [], ◌∷◌, ◌++◌, length, ◌==◌, leb, update, Bool-cases, arith,
}
use miyar_os.Fs.Path.{SplitPath, slash, component, skip_slash, split_loop, path_split, print_loop}

-- A name with no slash in it, with room for `room` bytes.
unfoldable pub is_name : (room : ℕ) → List ℕ → Bool
is_name room [] = true
is_name zero (c ∷ cs) = false
is_name (suc room) (c ∷ cs) = not (c == slash) && is_name room cs

-- `n` names from a place on, a slash before each.
rooted : (n i : ℕ) → (ℕ → List ℕ) → List ℕ
rooted zero i a = []
rooted (suc n) i a = slash ∷ (a i ++ rooted n (i + 1) a)

-- The names below `n` fit a component and are not empty.
pub record AreNames (n from : ℕ) (a : ℕ → List ℕ) : Type 0 where
  pub fit : (i : ℕ) → from ≤ i → i < from + n → is_name 63 (a i) ≡ true
  pub filled : (i : ℕ) → from ≤ i → i < from + n → a i ≢ []

-- A component ends at a slash or at the end.
component-name :
    (room : ℕ) (name : List ℕ) (n i : ℕ) (a : ℕ → List ℕ)
    → is_name room name ≡ true
    → component room (name ++ rooted n i a) ≡ some (name, rooted n i a)
unfolding component is_name rooted
component-name zero [] zero i a h = refl
component-name (suc room) [] zero i a h = refl
component-name zero [] (suc n) i a h = refl
component-name (suc room) [] (suc n) i a h = refl
component-name zero (c ∷ cs) n i a h = absurd (ground arith)
component-name (suc room) (c ∷ cs) n i a h =
    let other : c == slash ≡ false = ground arith in
    let rest : is_name room cs ≡ true = ground arith in
    rw (other, component-name room cs n i a rest)

-- What a split leaves: the names from `count` on, the array below as it was.
record Filled (n i count : ℕ) (a b f : ℕ → List ℕ) : Type 0 where
  names : (k : ℕ) → k < n → f (count + k) ≡ a (i + k)
  below : (k : ℕ) → k < count → f k ≡ b k

split_loop-step :
    (room count : ℕ) (b : ℕ → List ℕ) (name rest : List ℕ)
    → name ≢ []
    → component 63 (name ++ rest) ≡ some (name, rest)
    → split_loop (suc room) count b (name ++ rest)
      ≡ split_loop room (count + 1) (update b count name) (skip_slash rest)
unfolding split_loop
split_loop-step room count b [] rest ne h = absurd (ne refl)
split_loop-step room count b (c ∷ cs) rest ne h = λ i.
    elim (h i) as (λ x. Option ((ℕ → List ℕ) × ℕ)) [
      | none ↦ none
      | some (name, left) ↦ split_loop room (count + 1) (update b count name) (skip_slash left)
    ]

split_loop-rooted :
    (n room i count : ℕ) (a b : ℕ → List ℕ)
    → n ≤ room
    → AreNames n i a
    → (f : ℕ → List ℕ) × (split_loop room count b (skip_slash (rooted n i a)) ≡ some (f, count + n))
      × Filled n i count a b f
unfolding skip_slash rooted split_loop
split_loop-rooted zero room i count a b small names =
    let same : count + 0 ≡ count = omega arith in
    (
      b,
      (λ j. some (b, sym same j)),
      record { names = λ k lo. absurd (omega (arith, lo)); below = λ k lo. refl },
    )
split_loop-rooted (suc n) zero i count a b small names = absurd (omega (arith, small))
split_loop-rooted (suc n) (suc room) i count a b small names =
    let tail : AreNames n (i + 1) a = record {
      fit = λ k lo hi. names.fit k (omega (arith, lo)) (omega (arith, hi));
      filled = λ k lo hi. names.filled k (omega (arith, lo)) (omega (arith, hi));
    } in
    let (f, split, fill) =
      split_loop-rooted n room (i + 1) (count + 1) a (update b count (a i)) (omega (arith, small))
        tail in
    let fits = component-name 63 (a i) n (i + 1) a (names.fit i (omega arith) (omega arith)) in
    let count' : count + 1 + n ≡ count + suc n = omega arith in
    (
      f,
      split_loop-step room count b (a i) (rooted n (i + 1) a)
            (names.filled i (omega arith) (omega arith)) fits
          ∙ split
          ∙ (λ j. some (f, count' j)),
      record {
        names = λ k lo. elim (Bool-cases (k == 0)) [
          | inl first ↦
              let is : k ≡ 0 = ground arith in
              (λ j. f (count + is j))
              ∙ (let z : count + 0 ≡ count = omega arith in ap f z)
              ∙ fill.below count (omega arith)
              ∙ (let e : i ≡ i + k = omega (arith, is) in ground arith)
          | inr later ↦
              let there : count + k ≡ count + 1 + (k - 1) = ground arith in
              let here : i + 1 + (k - 1) ≡ i + k = ground arith in
              ap f there ∙ fill.names (k - 1) (ground arith) ∙ ap a here
        ];
        below = λ k lo. fill.below k (omega (arith, lo)) ∙ ground arith;
      },
    )

-- The printer, one name at a time.
print_loop-rooted :
    (n i : ℕ) (a : ℕ → List ℕ) (before out : List ℕ)
    → 0 < i
    → print_loop n i a before ≡ some out
    → out ≡ before ++ rooted n i a
unfolding print_loop rooted
print_loop-rooted zero i a before out past h =
    let same : before ≡ out = ground arith in sym same ∙ sym (append-nil before)
print_loop-rooted (suc n) i a before out past h =
    let later : i == 0 ≡ false = ground arith in
    elim (Bool-cases (leb 256 (length before + 1 + length (a i)))) [
      | inl full ↦ absurd (ground arith)
      | inr short ↦
          let h' : print_loop n (i + 1) a (before ++ slash ∷ [] ++ a i) ≡ some out =
            rw (later, short) at h in
          print_loop-rooted n (i + 1) a _ out (omega arith) h'
          ∙ (append_assoc (before ++ slash ∷ []) (a i) (rooted n (i + 1) a)
              ∙ append_assoc before (slash ∷ []) (a i ++ rooted n (i + 1) a))
    ]

-- The whole printer: the first name has no slash of its own but the root's.
print_loop-skip :
    (n : ℕ) (a : ℕ → List ℕ) (out : List ℕ)
    → print_loop n 0 a (slash ∷ []) ≡ some out
    → out ≡ slash ∷ skip_slash (rooted n 0 a)
unfolding print_loop rooted skip_slash
print_loop-skip zero a out h = let same : slash ∷ [] ≡ out = ground arith in sym same
print_loop-skip (suc n) a out h = elim (Bool-cases (leb 256 (1 + 0 + length (a 0)))) [
  | inl full ↦ absurd (ground arith)
  | inr short ↦
      let h' : print_loop n 1 a (slash ∷ a 0) ≡ some out = rw short at h in
      print_loop-rooted n 1 a (slash ∷ a 0) out (omega arith) h'
]

split_rooted :
    (n : ℕ) (b f : ℕ → List ℕ) (rest : List ℕ)
    → split_loop 16 0 b rest ≡ some (f, n)
    → path_split b (some (slash ∷ rest))
      ≡ some (record { components = f; count = n; absolute = true })
unfolding path_split skip_slash split_loop
split_rooted n b f rest h = rw h

none_before : (k : ℕ) → 0 + k ≡ k
none_before k = omega arith

-- Up to sixteen names that fit a component, none of them empty and none with a slash in it, printed
-- as `path_build_absolute` prints them, are split again, when they print at all, into an absolute
-- path of the same names in the same order.
pub path_split-print :
    (n : ℕ) (a b : ℕ → List ℕ) (out : List ℕ)
    → n ≤ 16
    → AreNames n 0 a
    → print_loop n 0 a (slash ∷ []) ≡ some out
    → (q : SplitPath) × (path_split b (some out) ≡ some q)
      × (q.count ≡ n)
      × (q.absolute ≡ true)
      × ((k : ℕ) → k < n → q.components k ≡ a k)
unfolding path_split skip_slash
path_split-print n a b out small names h =
    let (f, split, fill) = split_loop-rooted n 16 0 0 a b small names in
    let q : SplitPath = record { components = f; count = n; absolute = true } in
    (
      q,
      ap (λ o. path_split b (some o)) (print_loop-skip n a out h)
          ∙ split_rooted n b f (skip_slash (rooted n 0 a))
              (split ∙ (λ j. some (f, none_before n j))),
      refl,
      refl,
      λ k lo. ap f (sym (none_before k)) ∙ fill.names k lo ∙ ap a (none_before k),
    )

pub component-single :
    (room : ℕ) (name : List ℕ) → is_name room name ≡ true → component room name ≡ some (name, [])
unfolding rooted
component-single room name h =
    ap (component room) (sym (append-nil name)) ∙ component-name room name zero 0 (λ k. []) h
