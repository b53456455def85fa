-- ===== src/Memory/Vm/Map/Tests.antt =====
-- One address space with one page table, and a page mapped in it.
use miyar_os.Base.{ℕ, ◌^◌, ◌<◌, ◌≡◌, ◌≢◌, refl, false, ◌==◌, if◌then◌else◌, arith}
use miyar_os.Memory.Pmm.{Pmm}
use miyar_os.Memory.Heap.{Heap}
use miyar_os.Memory.Vm.{Vm, slot}
use miyar_os.Memory.Vm.Map.{
  table_index, is_user_address, write_entry, map_page, unmap_page, get_physical_address,
}
use miyar_os.Memory.Vm.Map.Laws.{HasTable, table_slot, get_physical_address-map_page}

abbrev pmm : Pmm
pmm = record { total_frames = 0; total_memory = 0; usable_memory = 0; bitmap = λ i. 0 }

abbrev heap : Heap
heap = record { header = λ i. record { size = 0; free = false }; offset = 0 }

-- `page_tables` stands at 0x10000, and its element 1 is the table at 0x5000.
abbrev vm : Vm
vm = record {
  pmm = pmm;
  heap = heap;
  words = λ p. if p == 0x10004 then 0x5000 else 0;
  spaces = λ a. record { page_directory = 0x20000; page_tables = 0x10000 };
  current_address_space = 0x3000;
  cr3 = 0x20000;
  kernel_heap = 0x100000;
  paging_directory = 0x30000;
  first_page_table = 0x31000;
  kernel_address_space = 0x32000;
  kernel_page_tables = 0x33000;
}

vm-HasTable : HasTable vm 0x401000
vm-HasTable = record { current = omega arith; table = omega arith; apart = λ w lt. omega arith }

map_run : get_physical_address (map_page vm 0x401000 0x7123 3) 0x401FFF ≡ 0x7000
unfolding map_page get_physical_address is_user_address write_entry
map_run = refl

get_physical_address-map_page_example :
    (get_physical_address (map_page vm 0x401000 0x7123 3) 0x401000 ≡ 0x7000)
    × ((w : ℕ)
        → w < 2 ^ 32
        → slot (vm.words (table_slot vm w)) (table_index w) ≢ 0x5004
        → get_physical_address (map_page vm 0x401000 0x7123 3) w ≡ get_physical_address vm w)
    × (get_physical_address (unmap_page vm 0x401000) 0x401000 ≡ 0)
get_physical_address-map_page_example =
    get_physical_address-map_page 0x401000 0x7123 3 vm-HasTable (omega arith) (omega arith)
      (omega arith)
