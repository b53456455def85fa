-- ===== src/Memory/Heap/Safety.antt =====
-- What a caller of `kmalloc` relies on: room enough, inside the heap, and apart from what is in
-- use.
use miyar_os.Base.{
  ℕ, ◌+◌, ◌^◌, ◌≤◌, ◌≡◌, ◌≢◌, ◌⊎◌, inl, inr, ◌&&◌, Option, some, List, [], ◌∷◌, ltb, leb, arith,
  Bool-cases, sym, ◌∙◌,
}
use miyar_os.Memory.Heap.{heap_size, header_size, Block, Heap, returned, round_up, kmalloc}
use miyar_os.Memory.Heap.Layout.{Lay, IsValid, first_fit, Live, Lay-le}
use miyar_os.Memory.Heap.Alloc.{kmalloc-first_fit}

Live-ge : (at : ℕ) (bs : List Block) (q t : ℕ) → Live at bs q t → at + header_size ≤ q
Live-ge at [] q t l = elim l [ ]
Live-ge at (b ∷ bs) q t (inl l) = omega arith
Live-ge at (b ∷ bs) q t (inr l) = omega (arith, Live-ge (at + header_size + b.size) bs q t l)

Live-le :
    (f : ℕ → Block) (stop at : ℕ) (bs : List Block) (q t : ℕ)
    → Lay f stop at bs
    → Live at bs q t
    → q + t ≤ stop
Live-le f stop at [] q t l i = elim i [ ]
Live-le f stop at (b ∷ bs) q t l (inl e) =
    omega (arith, Lay-le f stop (at + header_size + b.size) bs l.1)
Live-le f stop at (b ∷ bs) q t l (inr i) = Live-le f stop (at + header_size + b.size) bs q t l.1 i

-- `p` is the payload of a block that first fit has put in use: large enough, apart from the blocks
-- that were in use, and those stay in use.
pub record IsFresh (size at : ℕ) (before after : List Block) (p : ℕ) : Type 0 where
  pub room : ℕ
  pub live : Live at after p room
  pub enough : size ≤ room
  pub keeps : (q t : ℕ) → Live at before q t → Live at after q t
  pub apart : (q t : ℕ) → Live at before q t → (p + room ≤ q) ⊎ (q + t ≤ p)

first_fit-IsFresh :
    (size at : ℕ) (bs : List Block) (p : ℕ)
    → (first_fit size at bs).0 ≡ some p
    → IsFresh size at bs (first_fit size at bs).1 p
unfolding first_fit
first_fit-IsFresh size at [] p e = elim (Bool-cases (ltb heap_size (at + header_size + size))) [
  | inl full ↦ absurd (ground arith)
  | inr space ↦ rw space (record {
    room = size;
    live = inl (ground arith);
    enough = omega arith;
    keeps = λ q t l. absurd l;
    apart = λ q t l. absurd l;
  })
]
first_fit-IsFresh size at (b ∷ bs) p e = elim (Bool-cases (b.free && leb size b.size)) [
  | inl fit ↦ rw fit (record {
    room = b.size;
    live = inl (ground arith);
    enough = ground arith;
    keeps = λ q t l. elim l [ inl here ↦ absurd (ground arith) | inr later ↦ inr later ];
    apart = λ q t l. elim l [
      | inl here ↦ absurd (ground arith)
      | inr later ↦ inl (ground (arith, Live-ge (at + header_size + b.size) bs q t later))
    ];
  })
  | inr unfit ↦
      let r = first_fit-IsFresh size (at + header_size + b.size) bs p (rw unfit at e) in
      rw unfit (record {
        room = r.room;
        live = inr r.live;
        enough = r.enough;
        keeps = λ q t l. elim l [ inl here ↦ inl here | inr later ↦ inr (r.keeps q t later) ];
        apart = λ q t l. elim l [
          | inl here ↦ inr (
              omega (
                arith,
                Live-ge (at + header_size + b.size)
                    (first_fit size (at + header_size + b.size) bs).1 p r.room r.live,
              ))
          | inr later ↦ r.apart q t later
        ];
      })
]

Outcome-injective : {p q : Option ℕ} {g h : Heap} → returned p g ≡ returned q h → (p ≡ q) × (g ≡ h)
Outcome-injective e = (cc, cc)

-- A pointer that `kmalloc` returns for a positive size up to 1 GiB is the payload of a block now in
-- use that lies inside the heap and is at least as large. Every block in use before is still in
-- use, and the new one overlaps none of them.
pub kmalloc-IsFresh :
    {h h' : Heap} {bs : List Block} (n p : ℕ)
    → IsValid h bs
    → n ≢ 0
    → n ≤ 2 ^ 30
    → kmalloc h n ≡ returned (some p) h'
    → (after : List Block) × (fresh : IsFresh n 0 bs after p) × IsValid h' after
      × (p + fresh.room ≤ heap_size)
kmalloc-IsFresh {h} {bs} n p v ne small e =
    let (g, same, valid) = kmalloc-first_fit n v ne small in
    let eqs = Outcome-injective (sym same ∙ e) in
    let fresh = first_fit-IsFresh (round_up n) 0 bs p eqs.0 in
    let after = (first_fit (round_up n) 0 bs).1 in
    (
      after,
      record {
        room = fresh.room;
        live = fresh.live;
        enough = omega (arith, fresh.enough);
        keeps = fresh.keeps;
        apart = fresh.apart;
      },
      rw eqs.1 at valid,
      omega
          (arith, Live-le g.header g.offset 0 after p fresh.room valid.lay fresh.live, valid.fits),
    )
