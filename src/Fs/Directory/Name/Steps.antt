-- ===== src/Fs/Directory/Name/Steps.antt =====
-- The rounds of `directory_set_name`: each adds its character to the name.
use mathlib.Core.Path.{subst}
use mathlib.Core.Option.{some-injective}
use mathlib.Core.List.{append-nil, append_assoc}
use miyar_os.Base.{
  ℕ, suc, ◌+◌, ◌<◌, ◌≡◌, ◌≢◌, sym, ap, ◌∙◌, inl, inr, true, false, ◌||◌, Option, none, some, List,
  [], ◌∷◌, ◌++◌, map, ◌==◌, leb, if◌then◌else◌, update, Bool-cases, Option-cases, arith,
}
use miyar_os.Fs.Directory.Name.{Short, space, dot, fold_case, add_char, add_dot, name_loop}
use miyar_os.Fs.Directory.Name.Parts.{
  held, held-update, held-end, is_plain, IsShort, shown, fold_case-plain,
}

-- A character of the extension, and one of the base.
abbrev extended : Short → ℕ → Short
extended s c = record s {
  bytes = update s.bytes (8 + s.extension_length) c;
  extension_length = suc s.extension_length;
}

abbrev lengthened : Short → ℕ → Short
lengthened s c = record s {
  bytes = update s.bytes s.base_length c;
  base_length = suc s.base_length;
}

extended-IsShort :
    (s : Short) (c : ℕ)
    → IsShort s
    → s.in_extension ≡ true
    → s.extension_length < 3
    → c ≢ space
    → IsShort (extended s c)
extended-IsShort s c v inside small plain = record {
  base = v.base;
  extension = omega (arith, small);
  closed = λ q. absurd (ground arith);
  base_bytes = λ k lo.
      let kept : update s.bytes (8 + s.extension_length) c k ≡ s.bytes k = ground (arith, v.base) in
      rw kept (v.base_bytes k lo);
  base_rest = λ k lo hi.
      let kept : update s.bytes (8 + s.extension_length) c k ≡ s.bytes k = ground arith in
      kept ∙ v.base_rest k lo hi;
  ext_bytes = λ k lo hi. elim (Bool-cases (8 + s.extension_length == k)) [
    | inl here ↦ rw here plain
    | inr before ↦ rw before (v.ext_bytes k lo (ground arith))
  ];
  ext_rest = λ k lo hi.
      let kept : update s.bytes (8 + s.extension_length) c k ≡ s.bytes k = ground arith in
      kept ∙ v.ext_rest k (omega (arith, lo)) hi;
}

extended-shown :
    (s : Short) (c : ℕ)
    → IsShort s
    → s.in_extension ≡ true
    → shown (extended s c) ≡ shown s ++ c ∷ []
unfolding shown
extended-shown s c v inside =
    let base =
      held-update s.base_length 0 (8 + s.extension_length) c s.bytes (omega (arith, v.base)) in
    rw inside (
      (λ i. base i ++ dot ∷ held-end s.extension_length 8 c s.bytes i)
      ∙ sym (
          append_assoc (held s.base_length 0 s.bytes) (dot ∷ held s.extension_length 8 s.bytes)
            (c ∷ [])))

lengthened-IsShort :
    (s : Short) (c : ℕ) → IsShort s → s.base_length < 8 → c ≢ space → IsShort (lengthened s c)
lengthened-IsShort s c v small plain = record {
  base = omega (arith, small);
  extension = v.extension;
  closed = v.closed;
  base_bytes = λ k lo. elim (Bool-cases (s.base_length == k)) [
    | inl here ↦ rw here plain
    | inr before ↦ rw before (v.base_bytes k (ground arith))
  ];
  base_rest = λ k lo hi.
      let kept : update s.bytes s.base_length c k ≡ s.bytes k = ground arith in
      kept ∙ v.base_rest k (omega (arith, lo)) hi;
  ext_bytes = λ k lo hi.
      let kept : update s.bytes s.base_length c k ≡ s.bytes k = ground arith in
      rw kept (v.ext_bytes k lo hi);
  ext_rest = λ k lo hi.
      let kept : update s.bytes s.base_length c k ≡ s.bytes k = ground arith in
      kept ∙ v.ext_rest k lo hi;
}

lengthened-shown :
    (s : Short) (c : ℕ) → s.in_extension ≡ false → shown (lengthened s c) ≡ shown s ++ c ∷ []
unfolding shown
lengthened-shown s c outside =
    let place : s.base_length ≡ 0 + s.base_length = omega arith in
    rw outside (
      append-nil _
      ∙ ap (λ k. held (suc s.base_length) 0 (update s.bytes k c)) place
      ∙ held-end s.base_length 0 c s.bytes
      ∙ ap (λ l. l ++ c ∷ []) (sym (append-nil (held s.base_length 0 s.bytes))))

-- What a step makes of a name.
abbrev Grown : Short → ℕ → Short → Type 0
Grown s c t = IsShort t × (shown t ≡ shown s ++ c ∷ [])

add_char-Grown :
    (s t : Short) (c : ℕ) → IsShort s → c ≢ space → add_char s c ≡ some t → Grown s (fold_case c) t
unfolding add_char
add_char-Grown s t c v plain e = elim (Bool-cases s.in_extension) [
  | inl inside ↦ elim (Bool-cases (leb 3 s.extension_length)) [
    | inl full ↦ absurd (ground arith)
    | inr room ↦
        let run : add_char s c ≡ some (extended s (fold_case c)) = rw (inside, room) in
        subst (Grown s (fold_case c)) (some-injective _ _ (sym run ∙ e)) (
          extended-IsShort s (fold_case c) v inside (ground arith) (fold_case-plain c plain),
          extended-shown s (fold_case c) v inside,
        )
  ]
  | inr outside ↦ elim (Bool-cases (leb 8 s.base_length)) [
    | inl full ↦ absurd (ground arith)
    | inr room ↦
        let run : add_char s c ≡ some (lengthened s (fold_case c)) = rw (outside, room) in
        subst (Grown s (fold_case c)) (some-injective _ _ (sym run ∙ e)) (
          lengthened-IsShort s (fold_case c) v (ground arith) (fold_case-plain c plain),
          lengthened-shown s (fold_case c) outside,
        )
  ]
]

opened-Grown :
    (s : Short)
    → IsShort s
    → s.in_extension ≡ false
    → Grown s dot (record s { in_extension = true })
unfolding shown held
opened-Grown s v outside =
    let none_yet = v.closed outside in
    (
      record {
        base = v.base;
        extension = v.extension;
        closed = λ q. none_yet;
        base_bytes = v.base_bytes;
        base_rest = v.base_rest;
        ext_bytes = v.ext_bytes;
        ext_rest = v.ext_rest;
      },
      rw (outside, none_yet)
          (ap (λ l. l ++ dot ∷ []) (sym (append-nil (held s.base_length 0 s.bytes)))),
    )

add_dot-Grown : (s t : Short) → IsShort s → add_dot s ≡ some t → Grown s dot t
unfolding add_dot
add_dot-Grown s t v e = elim (Bool-cases (s.in_extension || (s.base_length == 0))) [
  | inl refused ↦ absurd (ground arith)
  | inr open_now ↦
      let run : add_dot s ≡ some (record s { in_extension = true }) = rw open_now in
      subst (Grown s dot) (some-injective _ _ (sym run ∙ e)) (opened-Grown s v (ground arith))
]

step : Short → ℕ → Option Short
step s c = if c == dot then add_dot s else add_char s c

step-Grown :
    (s t : Short) (c : ℕ) → IsShort s → c ≢ space → step s c ≡ some t → Grown s (fold_case c) t
unfolding step fold_case
step-Grown s t c v plain e = elim (Bool-cases (c == dot)) [
  | inl here ↦
      let is : dot ≡ c = ground arith in
      let run : step s c ≡ add_dot s = rw here in
      subst (λ k. Grown s (fold_case k) t) is (add_dot-Grown s t v (sym run ∙ e))
  | inr other ↦
      let run : step s c ≡ add_char s c = rw other in add_char-Grown s t c v plain (sym run ∙ e)
]

name_loop-step :
    (c : ℕ) (cs : List ℕ) (s u : Short) → step s c ≡ some u → name_loop (c ∷ cs) s ≡ name_loop cs u
unfolding name_loop step
name_loop-step c cs s u h =
    λ i. elim (h i) as (λ o. Option Short) [ none ↦ none | some t ↦ name_loop cs t ]

name_loop-none : (c : ℕ) (cs : List ℕ) (s : Short) → step s c ≡ none → name_loop (c ∷ cs) s ≡ none
unfolding name_loop step
name_loop-none c cs s h =
    λ i. elim (h i) as (λ o. Option Short) [ none ↦ none | some t ↦ name_loop cs t ]

pub name_loop-shown :
    (cs : List ℕ) (s t : Short)
    → IsShort s
    → is_plain cs ≡ true
    → name_loop cs s ≡ some t
    → (IsShort t) × (shown t ≡ shown s ++ map fold_case cs)
unfolding name_loop is_plain
name_loop-shown [] s t v plain e =
    subst (λ x. (IsShort x) × (shown x ≡ shown s ++ [])) (some-injective _ _ e)
      (v, sym (append-nil _))
name_loop-shown (c ∷ cs) s t v plain e = elim (Option-cases (step s c)) [
  | inl refused ↦ let no_name = sym (name_loop-none c cs s refused) ∙ e in absurd (ground arith)
  | inr (u, got) ↦
      let byte : c ≢ space = ground arith in
      let rest : is_plain cs ≡ true = ground arith in
      let (w, one) = step-Grown s u c v byte got in
      let (valid, all) = name_loop-shown cs u t w rest (sym (name_loop-step c cs s u got) ∙ e) in
      (
        valid,
        all
            ∙ ap (λ l. l ++ map fold_case cs) one
            ∙ append_assoc (shown s) (fold_case c ∷ []) (map fold_case cs),
      )
]
