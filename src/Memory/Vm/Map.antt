-- ===== src/Memory/Vm/Map.antt =====
-- kernel/memory/vmm.c: mapping pages of the current address space. The invalidation of the TLB
-- entry has no counterpart, since the model has no TLB.
pub mod Laws
mod Tests
use Prim.Native.Nat.{bit_or}
use miyar_os.Base.{
  ℕ, ◌+◌, ◌*◌, ◌/◌, ◌%◌, ◌^◌, Bool, true, false, not, ◌&&◌, ◌==◌, ltb, leb, if◌then◌else◌, update,
}
use miyar_os.Memory.Vm.{Ptr, AddressSpace, Vm, slot, store, clear_words, pmm_alloc_frame}
use miyar_os.Memory.Vm.Paging.{page_present, page_writable, page_user}

abbrev pub user_space_start : ℕ
user_space_start = 0x00400000

abbrev pub kernel_space_start : ℕ
kernel_space_start = 0xC0000000

pub is_user_address : ℕ → Bool
is_user_address v = leb user_space_start v && ltb v kernel_space_start

-- v >> 22 and (v >> 12) & 0x3FF
abbrev pub directory_index : ℕ → ℕ
directory_index v = v / 2 ^ 22

abbrev pub table_index : ℕ → ℕ
table_index v = v / 2 ^ 12 % 2 ^ 10

-- p & 0xFFFFF000, on 32 bits
abbrev pub page_of : ℕ → ℕ
page_of p = p / 4096 * 4096

pub create_page_table : Vm → (a : Ptr) → (index : ℕ) → Ptr × Vm
unfolding store
create_page_table vm a index =
    let (table, vm') = pmm_alloc_frame vm in
    let entry = bit_or (bit_or (bit_or table page_present) page_writable) page_user in
    let cleared = clear_words 1024 0 table vm' in
    let linked = store cleared (slot (vm.spaces a).page_tables index) table in
    if a == 0
    then (0, vm)
    else if table == 0
    then (0, vm')
    else (table, store linked (slot (vm.spaces a).page_directory index) entry)

-- `page_table[table_index] = (physical_addr & 0xFFFFF000) | flags`
pub write_entry : Vm → (table : Ptr) → (v physical flags : ℕ) → Vm
unfolding store
write_entry vm table v physical flags =
    store vm (slot table (table_index v)) (bit_or (page_of physical) flags)

pub map_page : Vm → (v physical flags : ℕ) → Vm
unfolding is_user_address
map_page vm v physical flags =
    let a = vm.current_address_space in
    let table = vm.words (slot (vm.spaces a).page_tables (directory_index v)) in
    let (fresh, vm') = create_page_table vm a (directory_index v) in
    if a == 0
    then vm
    else if not (is_user_address v)
    then vm
    else if not (table == 0)
    then write_entry vm table v physical flags
    else if fresh == 0
    then vm'
    else write_entry vm' fresh v physical flags

pub unmap_page : Vm → (v : ℕ) → Vm
unfolding store
unmap_page vm v =
    let a = vm.current_address_space in
    let table = vm.words (slot (vm.spaces a).page_tables (directory_index v)) in
    if a == 0 then vm else if table == 0 then vm else store vm (slot table (table_index v)) 0

pub get_physical_address : Vm → (v : ℕ) → ℕ
get_physical_address vm v =
    let a = vm.current_address_space in
    let table = vm.words (slot (vm.spaces a).page_tables (directory_index v)) in
    let entry = vm.words (slot table (table_index v)) in
    if a == 0 then 0 else if table == 0 then 0 else if entry % 2 == 0 then 0 else page_of entry
