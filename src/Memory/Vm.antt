-- ===== src/Memory/Vm.antt =====
-- The state that kernel/memory/paging.c, address_space.c and vmm.c share. A pointer is an address,
-- 0 for NULL. The 32-bit words of memory that these files read and write through pointers (page
-- directories, page tables, and the arrays of their addresses) are a function of the address; an
-- `address_space_t` is a record at its address.
pub mod Paging
pub mod Space
pub mod Map
pub mod Words
use miyar_os.Base.{ℕ, zero, suc, ◌+◌, ◌-◌, ◌*◌, ◌%◌, ◌^◌, none, some, ◌==◌, if◌then◌else◌, update}
use miyar_os.Memory.Pmm
use miyar_os.Memory.Pmm.{Pmm}
use miyar_os.Memory.Heap
use miyar_os.Memory.Heap.{Heap, stuck, returned}

abbrev pub Ptr : Type 0
Ptr = ℕ

-- `address_space_t`
pub record AddressSpace : Type 0 where
  pub page_directory : Ptr
  pub page_tables : Ptr

-- The last seven fields are the addresses of static arrays and of `kernel_address_space`; `cr3` is
-- the register.
pub record Vm : Type 0 where
  pub pmm : Pmm
  pub heap : Heap
  pub words : Ptr → ℕ
  pub spaces : Ptr → AddressSpace
  pub current_address_space : Ptr
  pub cr3 : Ptr
  pub kernel_heap : Ptr
  pub paging_directory : Ptr
  pub first_page_table : Ptr
  pub kernel_address_space : Ptr
  pub kernel_page_tables : Ptr

-- The address of `array[i]`, for elements of 4 bytes.
abbrev pub slot : Ptr → ℕ → Ptr
slot array i = array + 4 * i

pub store : Vm → Ptr → ℕ → Vm
store vm p w = record vm { words = update vm.words p w }

-- for (; rounds > 0; i++, rounds--) array[i] = 0
pub clear_words : (rounds i : ℕ) → Ptr → Vm → Vm
unfolding store
clear_words zero i array vm = vm
clear_words (suc n) i array vm = clear_words n (i + 1) array (store vm (slot array i) 0)

pub pmm_alloc_frame : Vm → Ptr × Vm
pmm_alloc_frame vm = let (p, pmm) = Pmm.alloc_frame vm.pmm in (p, record vm { pmm = pmm })

pub pmm_free_frame : Vm → Ptr → Vm
pmm_free_frame vm p = record vm { pmm = Pmm.free_frame vm.pmm p }

-- The pointers of heap.c are offsets in `kernel_heap`, so NULL has to be kept apart.
pub kmalloc : Vm → ℕ → Ptr × Vm
kmalloc vm size = elim (Heap.kmalloc vm.heap size) [
  | stuck ↦ (0, vm)
  | returned none h ↦ (0, record vm { heap = h })
  | returned (some at) h ↦ (vm.kernel_heap + at, record vm { heap = h })
]

pub kfree : Vm → Ptr → Vm
kfree vm p =
    if p == 0
    then vm
    else record vm { heap = Heap.kfree vm.heap (some ((p + 2 ^ 32 - vm.kernel_heap) % 2 ^ 32)) }
