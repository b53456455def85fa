-- ===== src/Memory/Heap/Free.antt =====
-- `kfree` on the headers, against the release of a block of the list.
use miyar_os.Base.{
  ℕ, ◌+◌, ◌-◌, ◌%◌, ◌^◌, ◌≤◌, ◌≡◌, inl, inr, refl, true, false, none, some, List, [], ◌∷◌, ◌==◌,
  update, arith,
}
use miyar_os.Memory.Heap.{header_size, Block, Heap, kfree}
use miyar_os.Memory.Heap.Layout.{Lay, IsValid, release, IsPayload, Lay-le, Lay-update}

IsPayload-le : (at : ℕ) (bs : List Block) (p : ℕ) → IsPayload at bs p → at + header_size ≤ p
IsPayload-le at [] p i = elim i [ ]
IsPayload-le at (b ∷ bs) p (inl e) = omega arith
IsPayload-le at (b ∷ bs) p (inr i) = omega (arith, IsPayload-le (at + header_size + b.size) bs p i)

IsPayload-lt :
    (f : ℕ → Block) (stop at : ℕ) (bs : List Block) (p : ℕ)
    → Lay f stop at bs
    → IsPayload at bs p
    → p ≤ stop
IsPayload-lt f stop at [] p l i = elim i [ ]
IsPayload-lt f stop at (b ∷ bs) p l (inl e) =
    omega (arith, Lay-le f stop (at + header_size + b.size) bs l.1)
IsPayload-lt f stop at (b ∷ bs) p l (inr i) =
    IsPayload-lt f stop (at + header_size + b.size) bs p l.1 i

-- The header before the payload `p`, marked free.
abbrev marked : (ℕ → Block) → ℕ → ℕ → Block
marked f p = update f (p - header_size) (record (f (p - header_size)) { free = true })

Lay-marked :
    (f : ℕ → Block) (stop at : ℕ) (bs : List Block) (p : ℕ)
    → Lay f stop at bs
    → IsPayload at bs p
    → Lay (marked f p) stop at (release p at bs)
unfolding release
Lay-marked f stop at [] p l i = elim i [ ]
Lay-marked f stop at (b ∷ bs) p l (inl e) =
    let here : (at + header_size == p) ≡ true = ground arith in
    let header : p - header_size ≡ at = omega arith in
    rw here (
      rw (header, l.0) (ground arith),
      Lay-update f stop (at + header_size + b.size) bs (p - header_size)
          (record (f (p - header_size)) { free = true }) (omega arith) l.1,
    )
Lay-marked f stop at (b ∷ bs) p l (inr i) =
    let later = IsPayload-le (at + header_size + b.size) bs p i in
    let past : (at + header_size == p) ≡ false = ground arith in
    rw past (ground (arith, l.0), Lay-marked f stop (at + header_size + b.size) bs p l.1 i)

-- `kfree` of the payload of a block leaves a valid heap in which that block is free, and of NULL
-- changes nothing.
pub kfree-release :
    {h : Heap} {bs : List Block} (p : ℕ)
    → IsValid h bs
    → IsPayload 0 bs p
    → IsValid (kfree h (some p)) (release p 0 bs) × (kfree h none ≡ h)
unfolding kfree
kfree-release {h} {bs} p v i =
    let above = IsPayload-le 0 bs p i in
    let below = IsPayload-lt h.header h.offset 0 bs p v.lay i in
    let exact : (p + 2 ^ 32 - header_size) % 2 ^ 32 ≡ p - header_size = omega (arith, v.fits) in
    (rw exact (record { lay = Lay-marked h.header h.offset 0 bs p v.lay i; fits = v.fits }), refl)
