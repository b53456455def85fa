-- ===== src/Fs/Path/Normalize.antt =====
-- Normalising in place, and normalising on a stack.
use miyar_os.Base.{
  ℕ, zero, suc, ◌+◌, ◌-◌, ◌<◌, ◌≤◌, ◌≡◌, inl, inr, refl, sym, ap, ◌∙◌, Bool, true, false, List, [],
  ◌∷◌, ◌==◌, ltb, if◌then◌else◌, update, Bool-cases, arith,
}
use miyar_os.Fs.Path.{
  SplitPath, same_string, dot, dots, move_component, normalize_step, normalize_loop, path_normalize,
}

-- The components below `n`, the last first.
unfoldable pub stack_of : (n : ℕ) → (ℕ → List ℕ) → List (List ℕ)
stack_of zero a = []
stack_of (suc n) a = a n ∷ stack_of n a

-- `n` components from a place on, in order.
unfoldable pub names_of : (n from : ℕ) → (ℕ → List ℕ) → List (List ℕ)
names_of zero from a = []
names_of (suc n) from a = a from ∷ names_of n (from + 1) a

-- Going up from a stack of directories.
unfoldable pub go_up : (absolute : Bool) → List ℕ → List (List ℕ) → List (List ℕ)
go_up absolute name [] = if absolute then [] else name ∷ []
go_up absolute name (top ∷ rest) =
    if same_string top dots then if absolute then top ∷ rest else name ∷ top ∷ rest else rest

-- One component, read from a stack of directories.
unfoldable pub enter : (absolute : Bool) → List ℕ → List (List ℕ) → List (List ℕ)
enter absolute name stack =
    if same_string name dot
    then stack
    else if same_string name dots
    then go_up absolute name stack
    else name ∷ stack

unfoldable pub resolve : (absolute : Bool) → List (List ℕ) → List (List ℕ) → List (List ℕ)
resolve absolute [] stack = stack
resolve absolute (name ∷ names) stack = resolve absolute names (enter absolute name stack)

stack_of-update :
    (n k : ℕ) (a : ℕ → List ℕ) (x : List ℕ) → n ≤ k → stack_of n (update a k x) ≡ stack_of n a
unfolding stack_of
stack_of-update zero k a x h = refl
stack_of-update (suc n) k a x h =
    let apart : update a k x n ≡ a n = ground arith in
    λ i. apart i ∷ stack_of-update n k a x (omega (arith, h)) i

names_of-kept :
    (n from : ℕ) (a b : ℕ → List ℕ)
    → ((i : ℕ) → from ≤ i → b i ≡ a i)
    → names_of n from b ≡ names_of n from a
unfolding names_of
names_of-kept zero from a b h = refl
names_of-kept (suc n) from a b h =
    λ i. h from (omega arith) i ∷ names_of-kept n (from + 1) a b (λ k lo. h k (omega (arith, lo))) i

-- What a move leaves: the component on top, nothing changed above the place it was read from.
move_component-top :
    (read write : ℕ) (a : ℕ → List ℕ)
    → write ≤ read
    → stack_of (suc write) (move_component read write a) ≡ a read ∷ stack_of write a
unfolding stack_of move_component
move_component-top read write a h = elim (Bool-cases (write == read)) [
  | inl same ↦ let is : write ≡ read = ground arith in rw same (ap (λ k. a k ∷ stack_of write a) is)
  | inr apart ↦
      let top : update a write (a read) write ≡ a read = ground arith in
      rw apart (λ i. top i ∷ stack_of-update write write a (a read) (omega arith) i)
]

move_component-kept :
    (read write : ℕ) (a : ℕ → List ℕ) (i : ℕ)
    → write ≤ read
    → read < i
    → move_component read write a i ≡ a i
unfolding move_component
move_component-kept read write a i h past = ground arith

-- What a round promises.
record Round (absolute : Bool) (read write : ℕ) (a : ℕ → List ℕ) (w : ℕ) (b : ℕ → List ℕ)
    : Type 0 where
  behind : w ≤ read + 1
  stack : stack_of w b ≡ enter absolute (a read) (stack_of write a)
  kept : (i : ℕ) → read + 1 ≤ i → b i ≡ a i

abbrev IsRound : (absolute : Bool) (read write : ℕ) → (ℕ → List ℕ) → ℕ × (ℕ → List ℕ) → Type 0
IsRound absolute read write a r = Round absolute read write a r.0 r.1

-- The round of a component that is stored.
stores :
    (absolute : Bool) (read write : ℕ) (a : ℕ → List ℕ)
    → write ≤ read
    → enter absolute (a read) (stack_of write a) ≡ a read ∷ stack_of write a
    → Round absolute read write a (suc write) (move_component read write a)
stores absolute read write a h is = record {
  behind = omega (arith, h);
  stack = move_component-top read write a h ∙ sym is;
  kept = λ i past. move_component-kept read write a i h (omega (arith, past));
}

step_up :
    (absolute : Bool) (read write : ℕ) (a : ℕ → List ℕ)
    → write ≤ read
    → same_string (a read) dot ≡ false
    → same_string (a read) dots ≡ true
    → IsRound absolute read write a (normalize_step absolute read write a)
unfolding normalize_step enter go_up stack_of
step_up absolute read zero a h plain up = elim (Bool-cases absolute) [
  | inl rooted ↦
      rw (plain, up, rooted)
        (record { behind = omega arith; stack = rw (plain, up); kept = λ i past. refl })
  | inr relative ↦ rw (plain, up, relative) (stores false read 0 a h (rw (plain, up)))
]
step_up absolute read (suc w) a h plain up =
    let some_write : ltb 0 (suc w) ≡ true = ground arith in
    let below : suc w - 1 ≡ w = omega arith in
    elim (Bool-cases (same_string (a w) dots)) [
      | inr name ↦
          rw (plain, up, some_write, below, name)
            (record {
              behind = omega (arith, h);
              stack = rw (plain, up, name);
              kept = λ i past. refl;
            })
      | inl stuck ↦ elim (Bool-cases absolute) [
        | inl rooted ↦
            rw (plain, up, some_write, below, stuck, rooted)
              (record {
                behind = omega (arith, h);
                stack = rw (plain, up, stuck);
                kept = λ i past. refl;
              })
        | inr relative ↦
            rw (plain, up, some_write, below, stuck, relative)
              (stores false read (suc w) a h (rw (plain, up, stuck)))
      ]
    ]

normalize_step-Round :
    (absolute : Bool) (read write : ℕ) (a : ℕ → List ℕ)
    → write ≤ read
    → IsRound absolute read write a (normalize_step absolute read write a)
unfolding normalize_step enter
normalize_step-Round absolute read write a h = elim (Bool-cases (same_string (a read) dot)) [
  | inl here ↦
      rw here (record { behind = omega (arith, h); stack = rw here; kept = λ i past. refl })
  | inr plain ↦ elim (Bool-cases (same_string (a read) dots)) [
    | inl up ↦ step_up absolute read write a h plain up
    | inr name ↦ rw (plain, name) (stores absolute read write a h (rw (plain, name)))
  ]
]

normalize_loop-resolve :
    (n : ℕ) (absolute : Bool) (read write : ℕ) (a : ℕ → List ℕ)
    → write ≤ read
    → let r = normalize_loop n absolute read write a in
      stack_of r.0 r.1 ≡ resolve absolute (names_of n read a) (stack_of write a)
unfolding normalize_loop resolve names_of
normalize_loop-resolve zero absolute read write a h = refl
normalize_loop-resolve (suc n) absolute read write a h =
    let step = normalize_step absolute read write a in
    let round = normalize_step-Round absolute read write a h in
    normalize_loop-resolve n absolute (read + 1) step.0 step.1 round.behind
    ∙ (λ i. resolve absolute (names_of-kept n (read + 1) a step.1 round.kept i) (round.stack i))

-- Normalising in place, where every component is copied down over the ones that were dropped,
-- leaves the components that a stack of directories gives for the components in order: a dot is
-- skipped, two dots take the top off; where the stack is empty or its top is two dots, they are put
-- on it in a relative path and are skipped in an absolute one.
pub path_normalize-resolve :
    (p : SplitPath)
    → let q = path_normalize p in
      (stack_of q.count q.components ≡ resolve p.absolute (names_of p.count 0 p.components) [])
      × (q.absolute ≡ p.absolute)
unfolding path_normalize stack_of
path_normalize-resolve p =
    (normalize_loop-resolve p.count p.absolute 0 0 p.components (omega arith), refl)
