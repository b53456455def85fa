-- ===== src/Fs/Directory/Name/Laws.antt =====
-- A name that is set is the name that is read, in capitals.
use mathlib.Core.Option.{some-injective}
use miyar_os.Base.{
  ℕ, zero, suc, ◌+◌, ◌≤◌, ◌<◌, ◌≡◌, ◌≢◌, refl, sym, ap, ◌∙◌, inl, inr, true, false, ◌&&◌, ◌||◌,
  some, List, [], ◌∷◌, ◌++◌, map, ◌==◌, ltb, if◌then◌else◌, Bool-cases, Option-cases, arith,
}
use miyar_os.Fs.Directory.Entry.{Entry}
use miyar_os.Fs.Directory.Name.{
  Short, empty_short, space, dot, before_nul, copy_part, directory_get_name, fold_case, name_loop,
  directory_set_name,
}
use miyar_os.Fs.Directory.Name.Parts.{
  held, is_plain, before_nul-plain, is_plain-fold, IsShort, shown, empty-IsShort,
}
use miyar_os.Fs.Directory.Name.Steps.{name_loop-shown}

-- A part is what is held before its padding.
copy_part-held :
    (rounds n from : ℕ) (e : Entry)
    → n ≤ rounds
    → ((k : ℕ) → from ≤ k → k < from + n → e k ≢ space)
    → ((k : ℕ) → from + n ≤ k → k < from + rounds → e k ≡ space)
    → copy_part rounds from e ≡ held n from e
unfolding copy_part held
copy_part-held zero zero from e h bytes rest = refl
copy_part-held zero (suc n) from e h bytes rest = absurd (omega (arith, h))
copy_part-held (suc r) zero from e h bytes rest =
    let padded : e from ≡ space = rest from (omega arith) (omega arith) in
    let stop : e from == space ≡ true = ground arith in rw stop
copy_part-held (suc r) (suc n) from e h bytes rest =
    let byte : e from ≢ space = bytes from (omega arith) (omega arith) in
    let goes : e from == space ≡ false = ground arith in
    rw goes (
      ap (λ l. e from ∷ l)
        (copy_part-held r n (from + 1) e (omega (arith, h))
          (λ k lo hi. bytes k (omega (arith, lo)) (omega (arith, hi)))
          (λ k lo hi. rest k (omega (arith, lo)) (omega (arith, hi)))))

held-alike :
    (n from : ℕ) (a b : ℕ → ℕ)
    → ((k : ℕ) → from ≤ k → k < from + n → a k ≡ b k)
    → held n from a ≡ held n from b
unfolding held
held-alike zero from a b h = refl
held-alike (suc n) from a b h = λ i.
    h from (omega arith) (omega arith) i
    ∷ held-alike n (from + 1) a b (λ k lo hi. h k (omega (arith, lo)) (omega (arith, hi))) i

-- The bytes of an entry as `directory_get_name` reads them, from the local variables.
entry-shown :
    (s : Short) (e : Entry)
    → IsShort s
    → (s.in_extension && (s.extension_length == 0)) ≡ false
    → ((k : ℕ) → k < 11 → e k ≡ s.bytes k)
    → copy_part 8 0 e ++ (if e 8 == space then [] else dot ∷ copy_part 3 8 e) ≡ shown s
unfolding shown
entry-shown s e v closed same =
    let base =
      copy_part-held 8 s.base_length 0 e v.base
        (λ k lo hi. rw (same k (omega (arith, hi, v.base))) (v.base_bytes k (omega (arith, hi))))
        (λ k lo hi.
          same k (omega (arith, hi)) ∙ v.base_rest k (omega (arith, lo)) (omega (arith, hi)))
      ∙ held-alike s.base_length 0 e s.bytes (λ k lo hi. same k (omega (arith, hi, v.base))) in
    let extension =
      copy_part-held 3 s.extension_length 8 e v.extension
        (λ k lo hi. rw (same k (omega (arith, hi, v.extension))) (v.ext_bytes k lo hi))
        (λ k lo hi. same k (omega (arith, hi)) ∙ v.ext_rest k lo (omega (arith, hi)))
      ∙ held-alike s.extension_length 8 e s.bytes
          (λ k lo hi. same k (omega (arith, hi, v.extension))) in
    elim (Bool-cases s.in_extension) [
      | inl inside ↦
          let byte : e 8 ≢ space =
            rw (same 8 (omega arith)) (v.ext_bytes 8 (omega arith) (ground arith)) in
          let goes : e 8 == space ≡ false = ground arith in
          rw (goes, inside) (λ i. base i ++ dot ∷ extension i)
      | inr outside ↦
          let none_yet = v.closed outside in
          let padded : e 8 ≡ space =
            same 8 (omega arith) ∙ v.ext_rest 8 (omega (arith, none_yet)) (omega arith) in
          let stop : e 8 == space ≡ true = ground arith in
          rw (stop, outside) (ap (λ l. l ++ []) base)
    ]

-- The entry that the name was copied to.
named :
    (s : Short) (e e' : Entry) (name : List ℕ)
    → is_plain name ≡ true
    → name_loop name empty_short ≡ some s
    → (s.in_extension && (s.extension_length == 0)) ≡ false
    → ◌≡◌ {A = Entry} (λ k. if ltb k 11 then s.bytes k else e k) e'
    → (directory_get_name e' ≡ map fold_case name) × ((k : ℕ) → 11 ≤ k → e' k ≡ e k)
unfolding directory_get_name shown held
named s e e' name plain got closed is =
    let (v, all) = name_loop-shown name empty_short s empty-IsShort plain got in
    let copied : (k : ℕ) → k < 11 → e' k ≡ s.bytes k =
      λ k lt. ap (λ f. f k) (sym is) ∙ (let below : ltb k 11 ≡ true = ground arith in rw below) in
    (
      ap before_nul (entry-shown s e' v closed copied ∙ all)
          ∙ before_nul-plain (map fold_case name) (is_plain-fold name plain),
      λ k past. ap (λ f. f k) (sym is) ∙ (let above : ltb k 11 ≡ false = ground arith in rw above),
    )

-- A name with no NUL and no space in it that `directory_set_name` accepts is read back by
-- `directory_get_name` with its small letters as capitals, its dot included, and the entry's bytes
-- after the name are as they were.
pub directory_get_name-directory_set_name :
    (e e' : Entry) (name : List ℕ)
    → is_plain name ≡ true
    → directory_set_name e name ≡ some e'
    → (directory_get_name e' ≡ map fold_case name) × ((k : ℕ) → 11 ≤ k → e' k ≡ e k)
unfolding directory_set_name directory_get_name
directory_get_name-directory_set_name e e' name plain h =
    elim (Option-cases (name_loop name empty_short)) [
      | inl refused ↦ absurd (ground arith)
      | inr (s, got) ↦
          elim (Bool-cases
            ((s.base_length == 0) || (s.in_extension && (s.extension_length == 0)))) [
              | inl refused ↦ absurd (ground arith)
              | inr accepted ↦
                  let out : Entry = λ k. if ltb k 11 then s.bytes k else e k in
                  let run : directory_set_name e name ≡ some out =
                    rw (directory_set_name, got, accepted) in
                  let is : out ≡ e' = some-injective _ _ (sym run ∙ h) in
                  named s e e' name plain got (ground arith) is
            ]
    ]
