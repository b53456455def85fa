-- ===== src/Process/Sample.antt =====
-- A kernel whose thread at 0x1000 runs, with the threads at 0x2000 and 0x3000 ready.
use miyar_os.Base.{refl, false, List, [], ◌∷◌, ◌==◌, if◌then◌else◌, arith}
use miyar_os.Memory.Vm.{Vm}
use miyar_os.Process.Queue.{Queues}
use miyar_os.Process.Switch.Rotate.{IsScheduled}
use miyar_os.Process.Kernel.{Ptr, Thread, ThreadState, ready, running, alive, Kernel}

abbrev pub vm : Vm
vm = record {
  pmm = record { total_frames = 0; total_memory = 0; usable_memory = 0; bitmap = λ i. 0 };
  heap = record { header = λ i. record { size = 0; free = false }; offset = 0 };
  words = λ p. 0;
  spaces = λ a. record { page_directory = 0x20000; page_tables = 0x10000 };
  current_address_space = 0x40000;
  cr3 = 0x20000;
  kernel_heap = 0x100000;
  paging_directory = 0x30000;
  first_page_table = 0x31000;
  kernel_address_space = 0x32000;
  kernel_page_tables = 0x33000;
}

abbrev pub thread : ThreadState → (process next : Ptr) → Thread
thread s process next = record {
  tid = 1;
  state = s;
  kernel_stack = 0;
  kernel_stack_top = 0;
  saved_esp = 0x5000;
  frame = 0;
  process = process;
  entry = 0;
  name = [];
  next = next;
}

abbrev pub kernel : Kernel
kernel = record {
  vm = vm;
  threads = λ t.
      if t == 0x1000
      then thread running 0x6000 0
      else if t == 0x2000
      then thread ready 0x7000 0x3000
      else thread ready 0x6000 0;
  processes = λ p. record {
    pid = 1;
    name = [];
    address_space = 0x40000;
    parent = 0;
    thread_count = 1;
    next = 0;
    state = alive;
  };
  esp = 0x8000;
  next_tid = 5;
  current_thread = 0x1000;
  ready_queue_head = 0x2000;
  ready_queue_tail = 0x3000;
  idle_thread_instance = 0x9000;
  bootstrap_thread = 0xA000;
  terminated_queue_head = 0;
  terminated_queue_tail = 0;
  next_pid = 2;
  current_process = 0x6000;
  kernel_process = 0xB000;
  process_list_head = 0x6000;
  process_list_tail = 0x6000;
}

abbrev pub ready_threads : List Ptr
ready_threads = 0x2000 ∷ 0x3000 ∷ []

pub kernel-Queues : Queues kernel ready_threads []
kernel-Queues = record {
  ready = record {
    chain = (refl, omega arith, (refl, omega arith, refl));
    last = refl;
    distinct = ((omega arith, tt), (tt, tt));
  };
  done = record { chain = refl; last = refl; distinct = tt };
  apart = tt;
}

pub kernel-IsScheduled : IsScheduled kernel ready_threads []
kernel-IsScheduled = record {
  queues = kernel-Queues;
  current = omega arith;
  state = refl;
  off_ready = (omega arith, (omega arith, tt));
  off_done = tt;
  idle = omega arith;
  idle_ready = (omega arith, (omega arith, tt));
  idle_done = tt;
}
