-- ===== src/Process/Switch.antt =====
-- The functions of kernel/process/thread.c that give the processor away, the initialisation of
-- threads, and `process_exit`. Interrupts stay out: each function is one step.
pub mod Rotate
pub mod Steps
mod Tests
use miyar_os.Base.{
  ℕ, ◌+◌, ◌-◌, ◌%◌, ◌^◌, Bool, true, false, not, ◌&&◌, ◌||◌, Option, none, some, List, [], ◌∷◌,
  ◌==◌, if◌then◌else◌, update, ◌>>=◌,
}
use miyar_os.Memory.Vm.Space.{address_space_activate}
use miyar_os.Process.Kernel.{
  Ptr, Thread, Process, running, blocked, dead, is_blocked, is_terminated, Kernel, set_thread,
  set_process, set_state, inc32,
}
use miyar_os.Process.Thread.{
  frame_size, thread_enqueue, thread_enqueue_terminated, thread_dequeue, thread_create_in_process,
  thread_terminate_process_threads,
}
use miyar_os.Process.Proc.{process_set_current}

-- x86_context_switch of src/arch/x86/context.asm: it pushes the frame of the thread that leaves,
-- stores its address, and pops the frame of the other thread.
unfoldable pub context_switch : Kernel → (old : Ptr) → (new_esp : ℕ) → Kernel
context_switch k old new_esp =
    record (set_thread k old
      (record (k.threads old) { saved_esp = (k.esp + 2 ^ 32 - frame_size) % 2 ^ 32 })) {
        esp = (new_esp + frame_size) % 2 ^ 32;
      }

-- The process and the address space of `next`, where it is of another process than `current`.
unfoldable pub enter_process : Kernel → (current next : Ptr) → Kernel
unfolding process_set_current
enter_process k current next =
    let p = (k.threads next).process in
    let entered = process_set_current k p in
    if not (p == 0) && not ((k.threads current).process == p)
    then record entered {
      vm = address_space_activate entered.vm (entered.processes p).address_space;
    }
    else k

-- How `thread_yield`, `thread_block` and `thread_terminate` end.
unfoldable pub switch_to : Kernel → (current next : Ptr) → Kernel
unfolding enter_process context_switch
switch_to k current next =
    let entered = set_state (enter_process k current next) next running in
    context_switch (record entered { current_thread = next }) current
      (entered.threads next).saved_esp

-- The thread to run when one has to be found: the first of the queue, else the idle thread.
unfoldable pub next_or_idle : Kernel → Ptr × Kernel
unfolding thread_dequeue
next_or_idle k =
    let (next, k') = thread_dequeue k in
    if next == 0 then (k'.idle_thread_instance, k') else (next, k')

-- A thread that can go on goes to the end of the queue.
unfoldable pub requeue : Kernel → Ptr → Kernel
unfolding thread_enqueue
requeue k current =
    let s = (k.threads current).state in
    if not (is_terminated s) && not (is_blocked s) then thread_enqueue k current else k

unfoldable pub thread_yield : Kernel → Kernel
thread_yield k =
    let current = k.current_thread in
    let (next, k') = thread_dequeue k in
    if (current == 0) || (current == k.idle_thread_instance)
    then k
    else if next == 0
    then k
    else switch_to (requeue k' current) current next

unfoldable pub thread_block : Kernel → Kernel
thread_block k =
    let current = k.current_thread in
    let (next, k') = next_or_idle (set_state k current blocked) in
    if current == 0 then k else if next == 0 then k' else switch_to k' current next

unfoldable pub thread_terminate : Kernel → Kernel
thread_terminate k =
    let current = k.current_thread in
    let (next, k') = next_or_idle (thread_enqueue_terminated k current) in
    if current == 0
    then k
    else if (current == k.bootstrap_thread) || (current == k.idle_thread_instance)
    then k
    else if is_terminated (k.threads current).state
    then k
    else if next == 0
    then k'
    else switch_to k' current next

-- `idle` is the address of the function `idle_thread`.
pub thread_init : Kernel → (idle : Ptr) → Kernel
unfolding thread_create_in_process
thread_init k idle =
    let reset = record k {
      next_tid = 1;
      current_thread = 0;
      ready_queue_head = 0;
      ready_queue_tail = 0;
      terminated_queue_head = 0;
      terminated_queue_tail = 0;
    } in
    let p = k.current_process in
    let r = k.processes p in
    let b = k.bootstrap_thread in
    let booted = set_thread reset b (record {
      tid = 1;
      state = running;
      kernel_stack = 0;
      kernel_stack_top = 0;
      saved_esp = 0;
      frame = 0;
      process = p;
      entry = 0;
      name = b'k' ∷ b'e' ∷ b'r' ∷ b'n' ∷ b'e' ∷ b'l' ∷ 0 ∷ [];
      next = 0;
    }) in
    let counted = set_process booted p (record r { thread_count = inc32 r.thread_count }) in
    let (t, made) =
      thread_create_in_process (record counted { next_tid = 2; current_thread = b }) p idle
        (b'i' ∷ b'd' ∷ b'l' ∷ b'e' ∷ []) in
    if p == 0 then reset else record made { idle_thread_instance = t }

pub process_exit : (fuel : ℕ) → Kernel → (p : Ptr) → Option Kernel
process_exit fuel k p =
    let marked = set_process k p (record (k.processes p) { state = dead }) in
    let leave = λ (j : Kernel).
      let t = j.current_thread in
      if not (t == 0) && (((j.threads t).process == p) && not (is_terminated (j.threads t).state))
      then thread_terminate j
      else j in
    if p == 0
    then some k
    else if p == k.kernel_process
    then some k
    else do j ← thread_terminate_process_threads fuel marked p; some (leave j)
