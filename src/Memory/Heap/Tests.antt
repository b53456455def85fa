-- ===== src/Memory/Heap/Tests.antt =====
-- A heap of a block in use and a free one.
use miyar_os.Base.{
  ℕ, ◌+◌, ◌≤◌, ◌≡◌, inl, refl, Bool, true, false, none, some, List, [], ◌∷◌, ◌==◌, if◌then◌else◌,
  arith,
}
use miyar_os.Memory.Heap.{heap_size, Block, Heap, returned, round_up, walk, kmalloc, kfree}
use miyar_os.Memory.Heap.Layout.{IsValid, first_fit, release}
use miyar_os.Memory.Heap.Alloc.{kmalloc-first_fit}
use miyar_os.Memory.Heap.Free.{kfree-release}
use miyar_os.Memory.Heap.Safety.{IsFresh, kmalloc-IsFresh}

abbrev block : ℕ → Bool → Block
block size free = record { size = size; free = free }

abbrev heap : Heap
heap = record { header = λ i. if i == 0 then block 16 false else block 8 true; offset = 40 }

abbrev blocks : List Block
blocks = block 16 false ∷ block 8 true ∷ []

heap-IsValid : IsValid heap blocks
heap-IsValid = record { lay = (refl, (refl, refl)); fits = omega arith }

abbrev after : Heap
after = record {
  header = λ i. if 24 == i then block 8 false else if i == 0 then block 16 false else block 8 true;
  offset = 40;
}

-- Five bytes fit the free block of eight.
kmalloc_run : kmalloc heap 5 ≡ returned (some 32) after
unfolding kmalloc walk
kmalloc_run = refl

kmalloc-first_fit_example :
    (h' : Heap) × (kmalloc heap 5 ≡ returned (first_fit (round_up 5) 0 blocks).0 h')
    × IsValid h' (first_fit (round_up 5) 0 blocks).1
kmalloc-first_fit_example = kmalloc-first_fit 5 heap-IsValid (omega arith) (omega arith)

kfree-release_example :
    IsValid (kfree heap (some 8)) (release 8 0 blocks) × (kfree heap none ≡ heap)
kfree-release_example = kfree-release 8 heap-IsValid (inl refl)

kmalloc-IsFresh_example :
    (bs : List Block) × (fresh : IsFresh 5 0 blocks bs 32) × IsValid after bs
    × (32 + fresh.room ≤ heap_size)
unfolding kmalloc walk
kmalloc-IsFresh_example = kmalloc-IsFresh 5 32 heap-IsValid (omega arith) (omega arith) refl
