-- ===== src/Memory/Vm/Space.antt =====
-- kernel/memory/address_space.c. What it prints is left out.
use miyar_os.Base.{ℕ, zero, suc, ◌+◌, ◌*◌, ◌==◌, if◌then◌else◌, update}
use miyar_os.Memory.Vm.{
  Ptr, Vm, slot, store, clear_words, pmm_alloc_frame, pmm_free_frame, kmalloc, kfree,
}

pub set_page_tables : Vm → Ptr → Ptr → Vm
set_page_tables vm a t = record vm {
  spaces = update vm.spaces a (record (vm.spaces a) { page_tables = t });
}

pub set_page_directory : Vm → Ptr → Ptr → Vm
set_page_directory vm a d = record vm {
  spaces = update vm.spaces a (record (vm.spaces a) { page_directory = d });
}

-- The end of `address_space_create`: the directory shares the kernel's first table.
fill_space : Vm → (a t d : Ptr) → Vm
fill_space vm a t d =
    let cleared = clear_words 1024 0 d vm in
    let shared = store cleared (slot d 0) (vm.words (slot vm.paging_directory 0)) in
    set_page_directory (store shared (slot t 0) vm.first_page_table) a d

-- With the frame of the address space and its array of tables at hand.
create_directory : Vm → (a t : Ptr) → Ptr × Vm
unfolding fill_space
create_directory vm a t =
    let (d, vm') = pmm_alloc_frame (clear_words 1024 0 t vm) in
    if d == 0 then (0, pmm_free_frame (kfree vm' t) a) else (a, fill_space vm' a t d)

create_tables : Vm → (a : Ptr) → Ptr × Vm
unfolding create_directory
create_tables vm a =
    let (t, vm') = kmalloc vm (4 * 1024) in
    let stored = set_page_tables vm' a t in
    if t == 0 then (0, pmm_free_frame stored a) else create_directory stored a t

pub address_space_create : Vm → Ptr × Vm
unfolding create_tables
address_space_create vm =
    let (a, vm') = pmm_alloc_frame vm in if a == 0 then (0, vm') else create_tables vm' a

-- The loop of `address_space_destroy` over `page_tables[i]`.
free_tables : (rounds i : ℕ) → (t : Ptr) → Vm → Vm
free_tables zero i t vm = vm
free_tables (suc n) i t vm =
    let table = vm.words (slot t i) in
    free_tables n (i + 1) t
      (if table == 0 then vm else store (pmm_free_frame vm table) (slot t i) 0)

destroy_tables : Vm → (a : Ptr) → Vm
unfolding free_tables
destroy_tables vm a =
    let t = (vm.spaces a).page_tables in
    if t == 0 then vm else set_page_tables (kfree (free_tables 1023 1 t vm) t) a 0

destroy_directory : Vm → (a : Ptr) → Vm
destroy_directory vm a =
    let d = (vm.spaces a).page_directory in
    if d == 0 then vm else set_page_directory (pmm_free_frame vm d) a 0

pub address_space_destroy : Vm → Ptr → Vm
unfolding destroy_tables destroy_directory
address_space_destroy vm a =
    if a == 0
    then vm
    else if a == vm.kernel_address_space
    then vm
    else if a == vm.current_address_space
    then vm
    else pmm_free_frame (destroy_directory (destroy_tables vm a) a) a

unfoldable pub address_space_activate : Vm → Ptr → Vm
address_space_activate vm a =
    if a == 0
    then vm
    else record vm { cr3 = (vm.spaces a).page_directory; current_address_space = a }

pub address_space_init : Vm → Vm
unfolding set_page_directory set_page_tables store clear_words
address_space_init vm =
    let a = vm.kernel_address_space in
    let placed =
      set_page_tables (set_page_directory vm a vm.paging_directory) a vm.kernel_page_tables in
    let cleared = clear_words 1024 0 vm.kernel_page_tables placed in
    record (store cleared (slot vm.kernel_page_tables 0) vm.first_page_table) {
      current_address_space = a;
    }
