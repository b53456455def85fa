-- ===== src/Fs/Path/Plain.antt =====
-- What the components of a normalised absolute path cannot be.
use mathlib.Core.Path.{subst}
use miyar_os.Base.{
  ℕ, zero, suc, ◌<◌, ◌≡◌, inl, inr, sym, true, false, List, [], ◌∷◌, ◌==◌, Bool-cases, arith,
}
use miyar_os.Fs.Path.{SplitPath, same_string, dot, dots, path_normalize}
use miyar_os.Fs.Path.Normalize.{stack_of, names_of, go_up, enter, resolve, path_normalize-resolve}

-- No component of the list is a dot or two dots.
data ArePlain : List (List ℕ) → Type 0 where
  nothing : ArePlain []
  plain :
      {name : List ℕ} {names : List (List ℕ)}
      → same_string name dot ≡ false
      → same_string name dots ≡ false
      → ArePlain names
      → ArePlain (name ∷ names)

go_up-ArePlain :
    (name : List ℕ) (stack : List (List ℕ)) → ArePlain stack → ArePlain (go_up true name stack)
unfolding go_up
go_up-ArePlain name [] h = nothing
go_up-ArePlain name (top ∷ rest) (plain one two below) = rw two below

resolve-ArePlain :
    (names stack : List (List ℕ)) → ArePlain stack → ArePlain (resolve true names stack)
unfolding resolve enter
resolve-ArePlain [] stack h = h
resolve-ArePlain (name ∷ names) stack h =
    resolve-ArePlain names _ (elim (Bool-cases (same_string name dot)) [
      | inl here ↦ rw here h
      | inr one ↦ elim (Bool-cases (same_string name dots)) [
        | inl up ↦ rw (one, up) (go_up-ArePlain name stack h)
        | inr two ↦ rw (one, two) (plain one two h)
      ]
    ])

stack_of-plain :
    (n : ℕ) (a : ℕ → List ℕ)
    → ArePlain (stack_of n a)
    → (i : ℕ) → i < n
    → (same_string (a i) dot ≡ false) × (same_string (a i) dots ≡ false)
unfolding stack_of
stack_of-plain zero a h i small = absurd (omega (arith, small))
stack_of-plain (suc n) a (plain one two below) i small = elim (Bool-cases (i == n)) [
  | inl here ↦
      let is : n ≡ i = ground arith in
      (
        subst (λ k. same_string (a k) dot ≡ false) is one,
        subst (λ k. same_string (a k) dots ≡ false) is two,
      )
  | inr under ↦ stack_of-plain n a below i (ground arith)
]

-- An absolute path that is normalised has no component that is a dot or two dots.
pub path_normalize-plain :
    (p : SplitPath)
    → p.absolute ≡ true
    → (i : ℕ) → i < (path_normalize p).count
    → (same_string ((path_normalize p).components i) dot ≡ false)
      × (same_string ((path_normalize p).components i) dots ≡ false)
path_normalize-plain p rooted =
    let names = names_of p.count 0 p.components in
    let all : ArePlain (resolve p.absolute names []) =
      subst (λ b. ArePlain (resolve b names [])) (sym rooted) (resolve-ArePlain names [] nothing) in
    stack_of-plain _ _ (subst ArePlain (sym ((path_normalize-resolve p).0)) all)
