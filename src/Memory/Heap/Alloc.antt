-- ===== src/Memory/Heap/Alloc.antt =====
-- `kmalloc` and `kfree` do on the headers what first fit and release do on the list of blocks.
use miyar_os.Base.{
  ℕ, zero, suc, ◌+◌, ◌%◌, ◌^◌, ◌≤◌, ◌<◌, ◌≡◌, ◌≢◌, inl, inr, refl, true, false, ◌&&◌, some, List,
  [], ◌∷◌, ltb, leb, update, length, arith, ==-ne, Bool-cases, ◌∙◌,
}
use miyar_os.Memory.Heap.{
  heap_size, header_size, max_blocks, Block, Heap, Outcome, returned, round_up, grow, walk, kmalloc,
}
use miyar_os.Memory.Heap.Layout.{Lay, IsValid, first_fit, Lay-le, Lay-update}

-- The call has returned what first fit returns, and the heap from `at` on is first fit's.
record Refines (h : Heap) (size at : ℕ) (bs : List Block) (out : Outcome) : Type 0 where
  heap : Heap
  result : out ≡ returned (first_fit size at bs).0 heap
  lay : Lay heap.header heap.offset at (first_fit size at bs).1
  fits : heap.offset ≤ heap_size
  below : (i : ℕ) → i < at → heap.header i ≡ h.header i

module _ (h : Heap) (size : ℕ) where
  -- One round of the walk: past the blocks, at a block that fits, and at one that does not.
  pub walk-end : (n at : ℕ) → h.offset ≡ at → walk (suc n) h size at ≡ grow h size
  unfolding walk
  walk-end n at e = ground arith

  walk-fit :
      (n at : ℕ) (b : Block)
      → h.header at ≡ b
      → at < h.offset
      → (b.free && leb size b.size) ≡ true
      → walk (suc n) h size at
        ≡ returned
            (some (at + header_size))
            (record h { header = update h.header at (record b { free = false }) })
  unfolding walk
  walk-fit n at b e lt fit =
      let inside : ltb at h.offset ≡ true = ground arith in rw (e, inside, fit)

  pub walk-skip :
      (n at : ℕ) (b : Block)
      → h.header at ≡ b
      → at + header_size + b.size ≤ h.offset
      → h.offset ≤ heap_size
      → (b.free && leb size b.size) ≡ false
      → walk (suc n) h size at ≡ walk n h size (at + header_size + b.size)
  unfolding walk
  walk-skip n at b e le fits unfit =
      let inside : ltb at h.offset ≡ true = ground arith in
      let next : (at + header_size + b.size) % 2 ^ 32 ≡ at + header_size + b.size = omega arith in
      rw (e, inside, unfit, next)

module _ (h : Heap) (size : ℕ) (fits : h.offset ≤ heap_size) (small : size ≤ 2 ^ 31) where
  grow-Refines : (at : ℕ) → h.offset ≡ at → Refines h size at [] (grow h size)
  unfolding grow first_fit
  grow-Refines at e = elim (Bool-cases (ltb heap_size (at + header_size + size))) [
    | inl full ↦ record {
      heap = h;
      result = ground arith;
      lay = ground arith;
      fits = fits;
      below = λ i lt. refl;
    }
    | inr room ↦ record {
      heap = record {
        header = update h.header h.offset (record { size = size; free = false });
        offset = h.offset + header_size + size;
      };
      result = ground arith;
      lay = ground arith;
      fits = ground arith;
      below = λ i lt. ground arith;
    }
  ]

  walk-Refines :
      (n at : ℕ) (bs : List Block)
      → Lay h.header h.offset at bs
      → length bs < n
      → Refines h size at bs (walk n h size at)
  unfolding first_fit
  walk-Refines zero at bs l lt = absurd (omega arith)
  walk-Refines (suc n) at [] l lt = rw (walk-end h size n at l) (grow-Refines at l)
  walk-Refines (suc n) at (b ∷ bs) l lt =
      let long = Lay-le h.header h.offset at (b ∷ bs) l in
      elim (Bool-cases (b.free && leb size b.size)) [
        | inl fit ↦ record {
          heap = record h { header = update h.header at (record b { free = false }) };
          result = rw (walk-fit h size n at b l.0 (omega arith) fit, fit);
          lay = rw fit (
            ground arith,
            Lay-update h.header h.offset (at + header_size + b.size) bs at _ (omega arith) l.1,
          );
          fits = fits;
          below = λ i lt. ground arith;
        }
        | inr unfit ↦
            let rec = walk-Refines n (at + header_size + b.size) bs l.1 (omega arith) in
            record {
              heap = rec.heap;
              result =
                  rw
                    (
                      walk-skip h size n at b l.0
                          (omega
                            (arith, Lay-le h.header h.offset (at + header_size + b.size) bs l.1))
                          fits unfit,
                      unfit,
                    )
                    rec.result;
              lay = rw unfit (rec.below at (omega arith) ∙ l.0, rec.lay);
              fits = rec.fits;
              below = λ i lt. rec.below i (omega arith);
            }
      ]

-- `kmalloc` of a positive size up to 1 GiB ends within its fuel. It returns what first fit returns
-- for the size rounded up to a multiple of 8, and leaves a valid heap with first fit's blocks.
pub kmalloc-first_fit :
    {h : Heap} {bs : List Block} (n : ℕ)
    → IsValid h bs
    → n ≢ 0
    → n ≤ 2 ^ 30
    → (h' : Heap) × (kmalloc h n ≡ returned (first_fit (round_up n) 0 bs).0 h')
      × IsValid h' (first_fit (round_up n) 0 bs).1
unfolding kmalloc
kmalloc-first_fit {h} {bs} n v ne small =
    let r =
      walk-Refines h (round_up n) v.fits (omega arith) (max_blocks + 1) 0 bs v.lay
        (omega (arith, Lay-le h.header h.offset 0 bs v.lay, v.fits)) in
    (r.heap, rw (==-ne n 0 ne) r.result, record { lay = r.lay; fits = r.fits })
