-- ===== src/Memory/Heap/Layout.antt =====
-- What a heap stands for: the list of its blocks, one behind the other from offset 0. On that list,
-- what first fit, release and liveness mean.
use miyar_os.Base.{
  ℕ, ◌+◌, ◌*◌, ◌≤◌, ◌<◌, ◌≡◌, ◌⊎◌, true, false, ◌&&◌, Option, none, some, List, [], ◌∷◌, ◌==◌, ltb,
  leb, if◌then◌else◌, update, length, arith,
}
use miyar_os.Memory.Heap.{heap_size, header_size, Block, Heap}

-- From offset `at` on the headers are those of the blocks, and they end at `stop`.
abbrev pub Lay : (ℕ → Block) → (stop at : ℕ) → List Block → Type 0
Lay f stop at [] = stop ≡ at
Lay f stop at (b ∷ bs) = (f at ≡ b) × Lay f stop (at + header_size + b.size) bs

pub record IsValid (h : Heap) (bs : List Block) : Type 0 where
  pub lay : Lay h.header h.offset 0 bs
  pub fits : h.offset ≤ heap_size

-- First fit: the first free block that is large enough, else a new one at the end.
unfoldable pub first_fit : (size at : ℕ) → List Block → Option ℕ × List Block
first_fit size at [] =
    if ltb heap_size (at + header_size + size)
    then (none, [])
    else (some (at + header_size), record { size = size; free = false } ∷ [])
first_fit size at (b ∷ bs) =
    let (p, rest) = first_fit size (at + header_size + b.size) bs in
    if b.free && leb size b.size
    then (some (at + header_size), record b { free = false } ∷ bs)
    else (p, b ∷ rest)

-- The block whose payload stands at `p` becomes free.
unfoldable pub release : (p at : ℕ) → List Block → List Block
release p at [] = []
release p at (b ∷ bs) =
    if at + header_size == p
    then record b { free = true } ∷ bs
    else b ∷ release p (at + header_size + b.size) bs

-- Among the blocks there is one in use whose payload is the `s` bytes from `p` on.
abbrev pub Live : (at : ℕ) → List Block → (p s : ℕ) → Type 0
Live at [] p s = ⊥
Live at (b ∷ bs) p s =
    ((p ≡ at + header_size) × (s ≡ b.size) × (b.free ≡ false))
    ⊎ Live (at + header_size + b.size) bs p s

-- Among the blocks there is one, in use or free, whose payload is at `p`.
abbrev pub IsPayload : (at : ℕ) → List Block → (p : ℕ) → Type 0
IsPayload at [] p = ⊥
IsPayload at (b ∷ bs) p = (p ≡ at + header_size) ⊎ IsPayload (at + header_size + b.size) bs p

pub Lay-le :
    (f : ℕ → Block) (stop at : ℕ) (bs : List Block)
    → Lay f stop at bs
    → at + header_size * length bs ≤ stop
Lay-le f stop at [] l = omega arith
Lay-le f stop at (b ∷ bs) l = omega (arith, Lay-le f stop (at + header_size + b.size) bs l.1)

-- A write below a block list leaves it alone.
pub Lay-update :
    (f : ℕ → Block) (stop at : ℕ) (bs : List Block) (i : ℕ) (c : Block)
    → i < at
    → Lay f stop at bs
    → Lay (update f i c) stop at bs
Lay-update f stop at [] i c lt l = l
Lay-update f stop at (b ∷ bs) i c lt l =
    (ground arith, Lay-update f stop (at + header_size + b.size) bs i c (omega arith) l.1)

-- So does a write past its end.
pub Lay-above :
    (f : ℕ → Block) (stop at : ℕ) (bs : List Block) (i : ℕ) (c : Block)
    → stop ≤ i
    → Lay f stop at bs
    → Lay (update f i c) stop at bs
Lay-above f stop at [] i c le l = l
Lay-above f stop at (b ∷ bs) i c le l = (
  ground (arith, l.0, Lay-le f stop (at + header_size + b.size) bs l.1),
  Lay-above f stop (at + header_size + b.size) bs i c le l.1,
)
