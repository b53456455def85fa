-- ===== src/Memory/Vm/Paging.antt =====
-- kernel/memory/paging.c, the kernel's own page directory and first page table.
use Prim.Native.Nat.{bit_or}
use miyar_os.Base.{ℕ, zero, suc, ◌+◌, ◌-◌, ◌*◌, ◌/◌, ◌%◌, ◌^◌, ◌==◌, if◌then◌else◌}
use miyar_os.Memory.Vm.{Vm, slot, store, clear_words}

-- PAGE_PRESENT, PAGE_WRITABLE, PAGE_USER
abbrev pub page_present : ℕ
page_present = 1

abbrev pub page_writable : ℕ
page_writable = 2

abbrev pub page_user : ℕ
page_user = 4

-- The identity map of the first 4 MiB.
fill_first_table : (rounds i : ℕ) → Vm → Vm
fill_first_table zero i vm = vm
fill_first_table (suc n) i vm = fill_first_table n (i + 1) (
    store vm (slot vm.first_page_table i) (bit_or (bit_or (i * 0x1000) page_present) page_writable))

-- `entry &= ~PAGE_WRITABLE`, on the pages of the kernel's image.
protect_pages : (rounds i : ℕ) → Vm → Vm
protect_pages zero i vm = vm
protect_pages (suc n) i vm =
    let at = slot vm.first_page_table i in
    let entry = vm.words at in
    protect_pages n (i + 1)
      (store vm at (if entry / 2 % 2 == 1 then entry - page_writable else entry))

pub paging_init : (kernel_start kernel_end : ℕ) → Vm → Vm
unfolding fill_first_table protect_pages store clear_words
paging_init kernel_start kernel_end vm =
    let filled = fill_first_table 1024 0 vm in
    let start_page = kernel_start / 0x1000 in
    let end_page = (kernel_end + 0xFFF) % 2 ^ 32 / 0x1000 in
    let protected = protect_pages (end_page - start_page) start_page filled in
    let unmapped = store protected (slot vm.first_page_table 0) 0 in
    let first =
      store unmapped (slot vm.paging_directory 0)
        (bit_or (bit_or vm.first_page_table page_present) page_writable) in
    let cleared = clear_words 1023 1 vm.paging_directory first in
    record cleared { cr3 = vm.paging_directory }
