-- ===== src/Fs/Directory/Name/Parts.antt =====
-- The local variables of `directory_set_name`, and the name that they hold.
use miyar_os.Base.{
  ℕ, zero, suc, ◌+◌, ◌≤◌, ◌<◌, ◌≡◌, ◌≢◌, refl, ap, ◌∙◌, Bool, true, false, not, ◌&&◌, List, [], ◌∷◌,
  ◌++◌, map, ◌==◌, if◌then◌else◌, update, arith,
}
use miyar_os.Fs.Directory.Name.{Short, empty_short, space, dot, before_nul, fold_case}

-- `n` bytes from a place on.
unfoldable pub held : (n from : ℕ) → (ℕ → ℕ) → List ℕ
held zero from b = []
held (suc n) from b = b from ∷ held n (from + 1) b

pub held-update :
    (n from k c : ℕ) (b : ℕ → ℕ) → from + n ≤ k → held n from (update b k c) ≡ held n from b
unfolding held
held-update zero from k c b h = refl
held-update (suc n) from k c b h =
    let apart : update b k c from ≡ b from = ground arith in
    λ i. apart i ∷ held-update n (from + 1) k c b (omega (arith, h)) i

pub held-before :
    (n from k c : ℕ) (b : ℕ → ℕ) → k < from → held n from (update b k c) ≡ held n from b
unfolding held
held-before zero from k c b h = refl
held-before (suc n) from k c b h =
    let apart : update b k c from ≡ b from = ground arith in
    λ i. apart i ∷ held-before n (from + 1) k c b (omega (arith, h)) i

pub held-end :
    (n from c : ℕ) (b : ℕ → ℕ) → held (suc n) from (update b (from + n) c) ≡ held n from b ++ c ∷ []
unfolding held
held-end zero from c b =
    let here : update b (from + 0) c from ≡ c = ground arith in λ i. here i ∷ []
held-end (suc n) from c b =
    let kept : update b (from + suc n) c from ≡ b from = ground arith in
    let place : from + suc n ≡ from + 1 + n = omega arith in
    λ i.
      kept i
      ∷ (ap (λ k. held (suc n) (from + 1) (update b k c)) place ∙ held-end n (from + 1) c b) i

-- A string with no NUL and no space.
unfoldable pub is_plain : List ℕ → Bool
is_plain [] = true
is_plain (c ∷ cs) = not (c == 0) && (not (c == space) && is_plain cs)

pub before_nul-plain : (cs : List ℕ) → is_plain cs ≡ true → before_nul cs ≡ cs
unfolding before_nul is_plain
before_nul-plain [] h = refl
before_nul-plain (c ∷ cs) h =
    let rest : is_plain cs ≡ true = ground arith in
    let some_byte : c == 0 ≡ false = ground arith in
    rw some_byte (ap (λ r. c ∷ r) (before_nul-plain cs rest))

pub is_plain-fold : (cs : List ℕ) → is_plain cs ≡ true → is_plain (map fold_case cs) ≡ true
unfolding is_plain fold_case
is_plain-fold [] h = refl
is_plain-fold (c ∷ cs) h =
    let rest : is_plain cs ≡ true = ground arith in
    let after = is_plain-fold cs rest in ground arith

-- The local variables in the middle of a name.
pub record IsShort (s : Short) : Type 0 where
  pub base : s.base_length ≤ 8
  pub extension : s.extension_length ≤ 3
  pub closed : s.in_extension ≡ false → s.extension_length ≡ 0
  pub base_bytes : (k : ℕ) → k < s.base_length → s.bytes k ≢ space
  pub base_rest : (k : ℕ) → s.base_length ≤ k → k < 8 → s.bytes k ≡ space
  pub ext_bytes : (k : ℕ) → 8 ≤ k → k < 8 + s.extension_length → s.bytes k ≢ space
  pub ext_rest : (k : ℕ) → 8 + s.extension_length ≤ k → k < 11 → s.bytes k ≡ space

-- The name so far.
unfoldable pub shown : Short → List ℕ
unfolding held
shown s =
    held s.base_length 0 s.bytes
    ++ (if s.in_extension then dot ∷ held s.extension_length 8 s.bytes else [])

pub empty-IsShort : IsShort empty_short
empty-IsShort = record {
  base = omega arith;
  extension = omega arith;
  closed = λ q. refl;
  base_bytes = λ k lo. absurd (omega (arith, lo));
  base_rest = λ k lo hi. refl;
  ext_bytes = λ k lo hi. absurd (omega (arith, lo, hi));
  ext_rest = λ k lo hi. refl;
}

pub fold_case-plain : (c : ℕ) → c ≢ space → fold_case c ≢ space
unfolding fold_case
fold_case-plain c h = ground arith
