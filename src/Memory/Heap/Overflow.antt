-- ===== src/Memory/Heap/Overflow.antt =====
-- Requests so large that `size_t` arithmetic in `kmalloc` wraps.
use miyar_os.Base.{ℕ, ◌+◌, ◌-◌, ◌%◌, ◌^◌, ◌≡◌, false, List, [], ◌∷◌, update}
use miyar_os.Memory.Heap.{header_size, Block, Heap}

-- No block is free.
abbrev pub AllUsed : List Block → Type 0
AllUsed [] = Unit
AllUsed (b ∷ bs) = (b.free ≡ false) × AllUsed bs

-- The heap after the block of 2^32 - 8 bytes has been put at its end: the end has not moved.
abbrev wrapped : Heap → Heap
wrapped h = record h {
  header = update h.header h.offset (record { size = 2 ^ 32 - 8; free = false });
}

grown : Heap → ℕ → Heap
grown h size = record {
  header = update h.header h.offset (record { size = size; free = false });
  offset = (h.offset + header_size + size) % 2 ^ 32;
}
