-- ===== src/Drivers/Keyboard/Queue.antt =====
-- The buffer is a bounded queue.
use miyar_os.Base.{
  ℕ, zero, suc, ◌+◌, ◌-◌, ◌%◌, ◌^◌, ◌<◌, ◌≡◌, ◌≢◌, refl, sym, ap, ◌∙◌, inl, inr, true, false, List,
  [], ◌∷◌, ◌++◌, length, ltb, ◌==◌, if◌then◌else◌, update, Bool-cases, arith,
}
use miyar_os.Drivers.Keyboard.{Keyboard, keyboard_buffer_put, keyboard_getchar}

-- `n` characters from a place on, round the ring.
drain : (n from : ℕ) → (ℕ → ℕ) → List ℕ
drain zero from b = []
drain (suc n) from b = b from ∷ drain n ((from + 1) % 128) b

abbrev pending : Keyboard → ℕ
pending k = (k.head + 128 - k.tail) % 128

-- The characters that wait, the oldest first.
unfoldable pub waiting : Keyboard → List ℕ
unfolding drain
waiting k = drain (pending k) k.tail k.buffer

pub record IsRing (k : Keyboard) : Type 0 where
  pub head : k.head < 128
  pub tail : k.tail < 128

drain-update :
    (n from c : ℕ) (b : ℕ → ℕ)
    → from < 128
    → n < 128
    → drain (suc n) from (update b ((from + n) % 128) c) ≡ drain n from b ++ c ∷ []
unfolding drain
drain-update zero from c b lo small =
    let here : (from + 0) % 128 ≡ from = omega (arith, lo) in ap (λ x. x ∷ []) (ground arith)
drain-update (suc n) from c b lo small =
    let j = (from + suc n) % 128 in
    let kept : update b j c from ≡ b from =
      let apart : (from + suc n) % 128 ≢ from = omega (arith, lo, small) in ground arith in
    let same : ((from + 1) % 128 + n) % 128 ≡ j = omega arith in
    let rest =
      ap (λ x. drain (suc n) ((from + 1) % 128) (update b x c)) (sym same)
      ∙ drain-update n ((from + 1) % 128) c b (omega arith) (omega (arith, small)) in
    λ i. kept i ∷ rest i

length-drain : (n from : ℕ) (b : ℕ → ℕ) → length (drain n from b) ≡ n
unfolding drain
length-drain zero from b = refl
length-drain (suc n) from b = rw (length-drain n ((from + 1) % 128) b)

-- On a ring whose indices are in range, a put keeps them in range; it adds the character behind the
-- waiting ones when fewer than 127 wait, and drops it when 127 do.
pub keyboard_buffer_put-waiting :
    (c : ℕ) (k : Keyboard)
    → IsRing k
    → (IsRing (keyboard_buffer_put c k))
      × (waiting (keyboard_buffer_put c k)
          ≡ (if ltb (length (waiting k)) 127 then waiting k ++ c ∷ [] else waiting k))
unfolding waiting drain keyboard_buffer_put
keyboard_buffer_put-waiting c k r =
    let next : (k.head + 1) % 2 ^ 32 % 128 ≡ (k.head + 1) % 128 = omega (arith, r.head) in
    elim (Bool-cases ((k.head + 1) % 128 == k.tail)) [
      | inl full ↦
          let many : ltb (length (waiting k)) 127 ≡ false =
            rw (length-drain (pending k) k.tail k.buffer) (ground arith) in
          rw (next, full, many) (r, refl)
      | inr left ↦
          let few : ltb (length (waiting k)) 127 ≡ true =
            rw (length-drain (pending k) k.tail k.buffer) (ground arith) in
          let more : ((k.head + 1) % 128 + 128 - k.tail) % 128 ≡ suc (pending k) = ground arith in
          let place : k.head ≡ (k.tail + pending k) % 128 = omega (arith, r.head, r.tail) in
          rw (next, left, few)
            (
              record { head = omega arith; tail = r.tail },
              ap (λ n. drain n k.tail (update k.buffer k.head c)) more
                  ∙ ap (λ h. drain (suc (pending k)) k.tail (update k.buffer h c)) place
                  ∙ drain-update (pending k) k.tail c k.buffer r.tail (omega arith),
            )
    ]

-- On a ring whose indices are in range, a get keeps them in range; the indices are equal exactly
-- when its caller finds nothing waiting, and otherwise it gives the oldest waiting character and
-- leaves the rest in order.
pub keyboard_getchar-waiting :
    (k : Keyboard)
    → IsRing k
    → (IsRing (keyboard_getchar k).1)
      × (waiting k ≡ (
          if k.head == k.tail then [] else (keyboard_getchar k).0 ∷ waiting (keyboard_getchar k).1))
unfolding waiting drain keyboard_getchar
keyboard_getchar-waiting k r =
    let next : (k.tail + 1) % 2 ^ 32 % 128 ≡ (k.tail + 1) % 128 = omega (arith, r.tail) in
    elim (Bool-cases (k.head == k.tail)) [
      | inl empty ↦
          let nothing : pending k ≡ 0 = ground arith in
          rw empty (r, ap (λ n. drain n k.tail k.buffer) nothing)
      | inr some_left ↦
          let fewer : pending k ≡ suc ((k.head + 128 - (k.tail + 1) % 128) % 128) = ground arith in
          rw (some_left, next)
            (record { head = r.head; tail = omega arith }, ap (λ n. drain n k.tail k.buffer) fewer)
    ]

-- No more than 127 characters wait.
pub length-waiting : (k : Keyboard) → length (waiting k) < 128
unfolding waiting
length-waiting k = rw (length-drain (pending k) k.tail k.buffer) (omega arith)
