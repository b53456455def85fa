-- ===== src/Fs/Path/Fits.antt =====
-- A split stays inside the arrays of `path_t`.
use mathlib.Core.Path.{subst}
use miyar_os.Base.{
  ℕ, zero, suc, ◌+◌, ◌<◌, ◌≤◌, ◌≡◌, refl, inl, inr, ap, true, Option, none, some, List, [], ◌∷◌,
  ◌==◌, update, Bool-cases, Option-cases, arith,
}
use miyar_os.Fs.Path.{SplitPath, slash, component, skip_slash, split_loop, path_split}
use miyar_os.Fs.Path.Split.{is_name}

unwrap {ℓ} : {A : Type ℓ} {x y : A} → ◌≡◌ {A = Option A} (some x) (some y) → x ≡ y
unwrap {A} {x} e = ap (λ o. elim o as (λ t. A) [ none ↦ x | some z ↦ z ]) e

-- What a result's name is known to be.
carry :
    (room : ℕ) (x l name left : List ℕ)
    → ◌≡◌ {A = Option (List ℕ × List ℕ)} (some (x, l)) (some (name, left))
    → is_name room x ≡ true
    → is_name room name ≡ true
carry room x l name left e h = subst (λ n. is_name room n ≡ true) (λ i. (unwrap e i).0) h

component-fits :
    (room : ℕ) (path name left : List ℕ)
    → component room path ≡ some (name, left)
    → is_name room name ≡ true
unfolding component is_name
component-fits zero [] name left e = carry 0 [] [] name left e refl
component-fits (suc room) [] name left e = carry (suc room) [] [] name left e refl
component-fits zero (c ∷ cs) name left e = elim (Bool-cases (c == slash)) [
  | inl stop ↦ carry 0 [] (c ∷ cs) name left (rw stop at e) refl
  | inr long ↦ absurd (ground arith)
]
component-fits (suc room) (c ∷ cs) name left e = elim (Bool-cases (c == slash)) [
  | inl stop ↦ carry (suc room) [] (c ∷ cs) name left (rw stop at e) refl
  | inr other ↦ elim (Option-cases (component room cs)) [
    | inl failed ↦ absurd (ground arith)
    | inr ((n, l), got) ↦
        carry (suc room) (c ∷ n) l name left (rw (other, got) at e)
          (rw other (component-fits room cs n l got))
  ]
]

-- The first `n` components fit.
abbrev pub AllFit : ℕ → (ℕ → List ℕ) → Type 0
AllFit n a = (k : ℕ) → k < n → is_name 63 (a k) ≡ true

stored-AllFit :
    (count : ℕ) (a : ℕ → List ℕ) (name : List ℕ)
    → AllFit count a
    → is_name 63 name ≡ true
    → AllFit (count + 1) (update a count name)
stored-AllFit count a name fit here k lo = elim (Bool-cases (count == k)) [
  | inl last ↦ rw last here
  | inr before ↦ rw before (fit k (ground arith))
]

ended :
    (room count : ℕ) (a f : ℕ → List ℕ) (n : ℕ)
    → AllFit count a
    → ◌≡◌ {A = Option ((ℕ → List ℕ) × ℕ)} (some (a, count)) (some (f, n))
    → (n ≤ count + room) × AllFit n f
ended room count a f n fit e =
    let both : ◌≡◌ {A = (ℕ → List ℕ) × ℕ} (a, count) (f, n) = unwrap e in
    subst (λ r. (r.1 ≤ count + room) × AllFit r.1 r.0) both (omega arith, fit)

split_loop-AllFit :
    (room count : ℕ) (a : ℕ → List ℕ) (path : List ℕ) (f : ℕ → List ℕ) (n : ℕ)
    → AllFit count a
    → split_loop room count a path ≡ some (f, n)
    → (n ≤ count + room) × AllFit n f
unfolding split_loop
split_loop-AllFit zero count a [] f n fit e = ended zero count a f n fit e
split_loop-AllFit (suc room) count a [] f n fit e = ended (suc room) count a f n fit e
split_loop-AllFit zero count a (c ∷ cs) f n fit e = absurd (ground arith)
split_loop-AllFit (suc room) count a (c ∷ cs) f n fit e =
    elim (Option-cases (component 63 (c ∷ cs))) [
      | inl failed ↦ absurd (ground arith)
      | inr ((name, left), got) ↦
          let more = stored-AllFit count a name fit (component-fits 63 (c ∷ cs) name left got) in
          let (small, all) =
            split_loop-AllFit room (count + 1) (update a count name) (skip_slash left) f n more
              (rw (split_loop, got) at e) in
          (omega (arith, small), all)
    ]

-- A split that succeeds, of any path, gives at most sixteen components, each of at most 63 bytes
-- and without a slash, so that a component and its NUL fit the 64 bytes it is written to.
pub path_split-AllFit :
    (a : ℕ → List ℕ) (path : Option (List ℕ)) (p : SplitPath)
    → path_split a path ≡ some p
    → (p.count ≤ 16) × AllFit p.count p.components
unfolding path_split
path_split-AllFit a none p e = absurd (ground arith)
path_split-AllFit a (some []) p e =
    subst (λ q. (q.count ≤ 16) × AllFit q.count q.components) (unwrap e)
      (omega arith, λ k lo. absurd (omega (arith, lo)))
path_split-AllFit a (some (c ∷ cs)) p e =
    elim (Option-cases (split_loop 16 0 a (skip_slash (c ∷ cs)))) [
      | inl failed ↦ absurd (ground arith)
      | inr ((f, n), got) ↦
          let split : ◌≡◌ {A = Option SplitPath}
              (some (record { components = f; count = n; absolute = c == slash })) (some p) =
            rw (path_split, got) at e in
          subst (λ q. (q.count ≤ 16) × AllFit q.count q.components) (unwrap split)
            (split_loop-AllFit 16 0 a (skip_slash (c ∷ cs)) f n (λ k lo. absurd (omega (arith, lo)))
              got)
    ]
