-- ===== src/Memory/Heap.antt =====
-- kernel/memory/heap.c, the kernel's heap. `kernel_heap` is seen through its block headers: a
-- header stands at its offset from the start of the array, and a pointer is such an offset too,
-- `none` for NULL. `size_t` has 32 bits, and so has the sum of an offset and a size.
pub mod Layout
pub mod Alloc
pub mod Free
pub mod Safety
pub mod Overflow
mod Tests
use miyar_os.Base.{
  ℕ, zero, suc, ◌+◌, ◌-◌, ◌*◌, ◌/◌, ◌%◌, ◌^◌, Bool, true, false, ◌&&◌, Option, none, some, ◌==◌,
  ltb, leb, if◌then◌else◌, update,
}

-- HEAP_SIZE, and sizeof(heap_block_t).
abbrev pub heap_size : ℕ
heap_size = 1024 * 1024

abbrev pub header_size : ℕ
header_size = 8

-- `heap_block_t`
pub record Block : Type 0 where
  pub size : ℕ
  pub free : Bool

pub record Heap : Type 0 where
  pub header : ℕ → Block
  pub offset : ℕ

-- A call returns, or the walk over the blocks is stopped by its fuel.
pub data Outcome : Type 0 where
  stuck : Outcome
  returned : Option ℕ → Heap → Outcome

pub heap_init : Heap → Heap
heap_init h = record h { offset = 0 }

-- (size + 7) & ~7
abbrev pub round_up : ℕ → ℕ
round_up size = (size + 7) % 2 ^ 32 / 8 * 8

-- What `kmalloc` does when no free block fits.
pub grow : Heap → ℕ → Outcome
grow h size =
    let end = (h.offset + header_size + size) % 2 ^ 32 in
    if ltb heap_size end
    then returned none h
    else returned (some (h.offset + header_size)) (record {
      header = update h.header h.offset (record { size = size; free = false });
      offset = end;
    })

-- The loop of `kmalloc`, with fuel.
pub walk : ℕ → Heap → (size block : ℕ) → Outcome
unfolding grow
walk zero h size block = stuck
walk (suc fuel) h size block =
    let b = h.header block in
    let rest = walk fuel h size ((block + header_size + b.size) % 2 ^ 32) in
    if ltb block h.offset
    then if b.free && leb size b.size
      then returned (some (block + header_size))
          (record h { header = update h.header block (record b { free = false }) })
      else rest
    else grow h size

-- A block takes at least its header, so a heap has at most this many.
abbrev pub max_blocks : ℕ
max_blocks = heap_size / header_size

pub kmalloc : Heap → ℕ → Outcome
kmalloc h size = if size == 0 then returned none h else walk (max_blocks + 1) h (round_up size) 0

pub kfree : Heap → Option ℕ → Heap
kfree h none = h
kfree h (some ptr) =
    let block = (ptr + 2 ^ 32 - header_size) % 2 ^ 32 in
    record h { header = update h.header block (record (h.header block) { free = true }) }
