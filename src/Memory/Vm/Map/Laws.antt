-- ===== src/Memory/Vm/Map/Laws.antt =====
-- What a mapping of a page writes, and what it shows to a lookup.
use miyar_os.Base.{ℕ, ◌%◌, ◌^◌, ◌<◌, ◌≤◌, ◌≡◌, ◌≢◌, true, ◌==◌, if◌then◌else◌, arith}
use miyar_os.Memory.Vm.{Ptr, Vm, slot}
use miyar_os.Memory.Vm.Words.{bit_or-page}
use miyar_os.Memory.Vm.Map.{
  is_user_address, directory_index, table_index, page_of, write_entry, map_page, unmap_page,
  get_physical_address,
}

-- The place of the current address space that holds the address of the table for `v`.
abbrev pub table_slot : Vm → ℕ → Ptr
table_slot vm v = slot (vm.spaces vm.current_address_space).page_tables (directory_index v)

-- There is an address space and it has a page table for `v`, and no table's address is kept where
-- the table has its entry for `v`.
pub record HasTable (vm : Vm) (v : ℕ) : Type 0 where
  pub current : vm.current_address_space ≢ 0
  pub table : vm.words (table_slot vm v) ≢ 0
  pub apart :
      (w : ℕ) → w < 2 ^ 32 → slot (vm.words (table_slot vm v)) (table_index v) ≢ table_slot vm w

map_page-entry :
    (vm : Vm) (v physical flags : ℕ)
    → HasTable vm v
    → is_user_address v ≡ true
    → map_page vm v physical flags ≡ write_entry vm (vm.words (table_slot vm v)) v physical flags
unfolding map_page
map_page-entry vm v physical flags t user = ground (arith, t.current, t.table)

-- Where there is an address space with a page table for `v`, and the word of the table's entry for
-- `v` is none of the 1024 words that hold the addresses of its page tables: after a page from
-- 0x400000 up to below 0xC0000000 has been mapped, with flags in the low 12 bits, a lookup of it
-- gives the page of the physical address if the flags say present, and 0 if not. The lookup of any
-- 32-bit address whose entry is another word is unchanged. After the page has been unmapped, its
-- lookup gives 0.
pub get_physical_address-map_page :
    {vm : Vm} (v physical flags : ℕ)
    → HasTable vm v
    → 0x400000 ≤ v
    → v < 0xC0000000
    → flags < 4096
    → (get_physical_address (map_page vm v physical flags) v
        ≡ (if flags % 2 == 0 then 0 else page_of physical))
      × ((w : ℕ)
          → w < 2 ^ 32
          → slot (vm.words (table_slot vm w)) (table_index w)
            ≢ slot (vm.words (table_slot vm v)) (table_index v)
          → get_physical_address (map_page vm v physical flags) w ≡ get_physical_address vm w)
      × (get_physical_address (unmap_page vm v) v ≡ 0)
unfolding get_physical_address write_entry unmap_page is_user_address
get_physical_address-map_page {vm} v physical flags t low high small =
    let user : is_user_address v ≡ true = ground (arith, low, high) in
    let entry = bit_or-page physical flags small in
    let own = t.apart v (omega (arith, high)) in
    (
      rw (map_page-entry vm v physical flags t user)
          (ground (arith, t.current, t.table, own, entry)),
      λ w lt ne.
          rw (map_page-entry vm v physical flags t user)
            (ground (arith, t.current, t.apart w lt, ne)),
      ground (arith, t.current, t.table, own),
    )
