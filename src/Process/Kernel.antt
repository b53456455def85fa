-- ===== src/Process/Kernel.antt =====
-- The state of kernel/process: the records of thread.h and process.h at their addresses, and the
-- static variables of thread.c and process.c. A pointer is an address, 0 for NULL. A record that
-- `kfree` has given back keeps its contents until it is written again, as in the program.
-- A loop over a linked list takes fuel, and `none` means that it ran out.
use miyar_os.Base.{ℕ, ◌+◌, ◌%◌, ◌^◌, Bool, true, false, List, update}
use miyar_os.Memory.Vm.{Vm}
use miyar_os.Memory.Vm

abbrev pub Ptr : Type 0
Ptr = ℕ

pub data ThreadState : Type 0 where
  ready running blocked terminated : ThreadState

abbrev pub is_blocked : ThreadState → Bool
is_blocked blocked = true
is_blocked _ = false

abbrev pub is_terminated : ThreadState → Bool
is_terminated terminated = true
is_terminated _ = false

-- `thread_t`. `frame` and `entry` are addresses, and `name` is what has been written of the array.
pub record Thread : Type 0 where
  pub tid : ℕ
  pub state : ThreadState
  pub kernel_stack : Ptr
  pub kernel_stack_top : Ptr
  pub saved_esp : ℕ
  pub frame : Ptr
  pub process : Ptr
  pub entry : Ptr
  pub name : List ℕ
  pub next : Ptr

pub data ProcessState : Type 0 where
  alive dead : ProcessState

-- PROCESS_TERMINATED
abbrev pub is_dead : ProcessState → Bool
is_dead dead = true
is_dead alive = false

-- `struct process`
pub record Process : Type 0 where
  pub pid : ℕ
  pub name : List ℕ
  pub address_space : Ptr
  pub parent : Ptr
  pub thread_count : ℕ
  pub next : Ptr
  pub state : ProcessState

-- `bootstrap_thread` is the address of that static record; `esp` is the register.
pub record Kernel : Type 0 where
  pub vm : Vm
  pub threads : Ptr → Thread
  pub processes : Ptr → Process
  pub esp : ℕ
  pub next_tid : ℕ
  pub current_thread : Ptr
  pub ready_queue_head : Ptr
  pub ready_queue_tail : Ptr
  pub idle_thread_instance : Ptr
  pub bootstrap_thread : Ptr
  pub terminated_queue_head : Ptr
  pub terminated_queue_tail : Ptr
  pub next_pid : ℕ
  pub current_process : Ptr
  pub kernel_process : Ptr
  pub process_list_head : Ptr
  pub process_list_tail : Ptr

-- Writes through a pointer to a record.
abbrev pub set_thread : Kernel → Ptr → Thread → Kernel
set_thread k t r = record k { threads = update k.threads t r }

abbrev pub set_process : Kernel → Ptr → Process → Kernel
set_process k p r = record k { processes = update k.processes p r }

-- `t->next = n` and `t->state = s`
abbrev pub set_next : Kernel → Ptr → Ptr → Kernel
set_next k t n = set_thread k t (record (k.threads t) { next = n })

abbrev pub set_state : Kernel → Ptr → ThreadState → Kernel
set_state k t s = set_thread k t (record (k.threads t) { state = s })

-- uint32_t x++
abbrev pub inc32 : ℕ → ℕ
inc32 x = (x + 1) % 2 ^ 32

abbrev pub kfree : Kernel → Ptr → Kernel
kfree k p = record k { vm = Vm.kfree k.vm p }
