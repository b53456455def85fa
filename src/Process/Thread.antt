-- ===== src/Process/Thread.antt =====
-- kernel/process/thread.c: the two queues, creation and destruction of threads, and the loops over
-- the queues. The functions that switch to another thread are in Process/Switch.
use miyar_os.Base.{
  ℕ, zero, suc, ◌+◌, ◌-◌, ◌%◌, ◌^◌, not, ◌&&◌, ◌||◌, Option, none, some, List, [], ◌∷◌, ◌==◌, ltb,
  if◌then◌else◌,
}
use miyar_os.Memory.Vm
use miyar_os.Memory.Vm.{Vm, slot, store}
use miyar_os.Process.Kernel.{
  Ptr, ready, terminated, is_blocked, is_dead, Kernel, set_thread, set_process, set_next, set_state,
  inc32, kfree,
}

abbrev pub thread_name_max : ℕ
thread_name_max = 32

abbrev pub thread_stack_size : ℕ
thread_stack_size = 4096

-- sizeof(thread_t) and sizeof(x86_thread_frame_t)
abbrev pub thread_size : ℕ
thread_size = 68

abbrev pub frame_size : ℕ
frame_size = 68

unfoldable pub thread_enqueue : Kernel → Ptr → Kernel
thread_enqueue k t =
    let placed = set_state (set_next k t 0) t ready in
    if t == 0
    then k
    else if k.ready_queue_tail == 0
    then record placed { ready_queue_head = t; ready_queue_tail = t }
    else record (set_next placed k.ready_queue_tail t) { ready_queue_tail = t }

unfoldable pub thread_enqueue_terminated : Kernel → Ptr → Kernel
thread_enqueue_terminated k t =
    let placed = set_next (set_state k t terminated) t 0 in
    if t == 0
    then k
    else if k.terminated_queue_tail == 0
    then record placed { terminated_queue_head = t; terminated_queue_tail = t }
    else record (set_next placed k.terminated_queue_tail t) { terminated_queue_tail = t }

unfoldable pub thread_dequeue : Kernel → Ptr × Kernel
thread_dequeue k =
    let t = k.ready_queue_head in
    let head = (k.threads t).next in
    let rest = record k {
      ready_queue_head = head;
      ready_queue_tail = if head == 0 then 0 else k.ready_queue_tail;
    } in
    if t == 0 then (0, k) else (t, set_next rest t 0)

-- The loop that copies the name, `rounds` short of its end: it stops at the end of the name, whose
-- terminator it has then written.
pub copy_name : (rounds : ℕ) → (name : List ℕ) → List ℕ
copy_name zero name = []
copy_name (suc n) [] = 0 ∷ []
copy_name (suc n) (c ∷ name) = c ∷ copy_name n name

-- The words of `x86_thread_frame_t`, from `gs` to `eflags`.
frame_words : (top entry : ℕ) → List ℕ
frame_words top entry =
    0x10 ∷ 0x10 ∷ 0x10 ∷ 0x10 ∷ 0 ∷ 0 ∷ 0 ∷ top ∷ 0 ∷ 0 ∷ 0 ∷ 0 ∷ 0 ∷ 0 ∷ entry ∷ 0x08 ∷ 0x202 ∷ []

write_words : Vm → Ptr → (i : ℕ) → List ℕ → Vm
write_words vm p i [] = vm
write_words vm p i (w ∷ ws) = write_words (store vm (slot p i) w) p (i + 1) ws

-- `thread_create_in_process` once both blocks are there.
unfoldable pub thread_setup : Kernel → (t stack process entry : Ptr) → List ℕ → Kernel
unfolding copy_name frame_words write_words
thread_setup k t stack process entry name =
    let top = (stack + thread_stack_size) % 2 ^ 32 in
    let frame = (top + 2 ^ 32 - frame_size) % 2 ^ 32 in
    let p = k.processes process in
    let counted = set_process k process (record p { thread_count = inc32 p.thread_count }) in
    let made = set_thread counted t (record {
      tid = k.next_tid;
      state = ready;
      kernel_stack = stack;
      kernel_stack_top = top;
      saved_esp = frame;
      frame = frame;
      process = process;
      entry = entry;
      name = copy_name thread_name_max name;
      next = 0;
    }) in
    record made {
      next_tid = inc32 k.next_tid;
      vm = write_words k.vm frame 0 (frame_words top entry);
    }

thread_allocate : Kernel → (process entry : Ptr) → List ℕ → Ptr × Kernel
unfolding thread_setup
thread_allocate k process entry name =
    let (t, vm) = Vm.kmalloc k.vm thread_size in
    let (stack, vm') = Vm.kmalloc vm thread_stack_size in
    if t == 0
    then (0, record k { vm = vm })
    else if stack == 0
    then (0, kfree (record k { vm = vm' }) t)
    else (t, thread_setup (record k { vm = vm' }) t stack process entry name)

-- `name` is the string's bytes; NULL writes what the empty string does.
unfoldable pub thread_create_in_process : Kernel → (process entry : Ptr) → List ℕ → Ptr × Kernel
unfolding thread_allocate
thread_create_in_process k process entry name =
    if (entry == 0) || (process == 0)
    then (0, k)
    else if is_dead (k.processes process).state
    then (0, k)
    else thread_allocate k process entry name

pub thread_create : Kernel → (entry : Ptr) → List ℕ → Ptr × Kernel
unfolding thread_create_in_process
thread_create k entry name = thread_create_in_process k k.current_process entry name

-- `if (thread->process != 0 && thread->process->thread_count > 0) thread->process->thread_count--`
unfoldable pub uncount : Kernel → Ptr → Kernel
uncount k t =
    let p = (k.threads t).process in
    let r = k.processes p in
    if not (p == 0) && ltb 0 r.thread_count
    then set_process k p (record r { thread_count = r.thread_count - 1 })
    else k

unfoldable pub free_stack : Kernel → Ptr → Kernel
free_stack k t = if (k.threads t).kernel_stack == 0 then k else kfree k (k.threads t).kernel_stack

pub thread_destroy : Kernel → Ptr → Kernel
unfolding uncount free_stack
thread_destroy k t =
    if t == 0
    then k
    else if t == k.current_thread
    then k
    else if (t == k.bootstrap_thread) || (t == k.idle_thread_instance)
    then k
    else kfree (uncount (free_stack k t) t) t

unfoldable pub thread_unblock : Kernel → Ptr → Kernel
unfolding thread_enqueue thread_enqueue_terminated
thread_unblock k t =
    let p = (k.threads t).process in
    if t == 0
    then k
    else if not (is_blocked (k.threads t).state)
    then k
    else if not (p == 0) && is_dead (k.processes p).state
    then thread_enqueue_terminated k t
    else thread_enqueue k t

-- Taking `t`, whose successor is `next`, out of the ready queue behind `previous`.
unfoldable pub unlink_ready : Kernel → (previous t next : Ptr) → Kernel
unlink_ready k previous t next =
    let linked =
      if previous == 0 then record k { ready_queue_head = next } else set_next k previous next in
    if linked.ready_queue_tail == t then record linked { ready_queue_tail = previous } else linked

unfoldable pub unlink_terminated : Kernel → (previous t next : Ptr) → Kernel
unlink_terminated k previous t next =
    let linked =
      if previous == 0
      then record k { terminated_queue_head = next }
      else set_next k previous next in
    if linked.terminated_queue_tail == t
    then record linked { terminated_queue_tail = previous }
    else linked

-- The loop of `thread_terminate_process_threads`.
unfoldable pub terminate_loop : (fuel : ℕ) → Kernel → (process previous t : Ptr) → Option Kernel
unfolding unlink_ready thread_enqueue_terminated
terminate_loop zero k process previous t = none
terminate_loop (suc fuel) k process previous t =
    let next = (k.threads t).next in
    let removed = thread_enqueue_terminated (unlink_ready k previous t next) t in
    let on = terminate_loop fuel removed process previous next in
    let past = terminate_loop fuel k process t next in
    if t == 0
    then some k
    else if ((k.threads t).process == process) && not (t == k.current_thread)
    then on
    else past

unfoldable pub thread_terminate_process_threads :
    (fuel : ℕ) → Kernel → (process : Ptr) → Option Kernel
thread_terminate_process_threads fuel k process =
    if process == 0 then some k else terminate_loop fuel k process 0 k.ready_queue_head

-- What the loop of `thread_reap_terminated` does to a thread that it gives back.
unfoldable pub reap_thread : Kernel → (previous t next : Ptr) → Kernel
unfolding unlink_terminated uncount free_stack
reap_thread k previous t next =
    kfree (free_stack (uncount (set_next (unlink_terminated k previous t next) t 0) t) t) t

unfoldable pub reap_loop : (fuel : ℕ) → Kernel → (current previous t : Ptr) → Option Kernel
unfolding reap_thread
reap_loop zero k current previous t = none
reap_loop (suc fuel) k current previous t =
    let next = (k.threads t).next in
    let removed = reap_thread k previous t next in
    let on = reap_loop fuel removed current previous next in
    let past = reap_loop fuel k current t next in
    if t == 0 then some k else if not (t == current) then on else past

unfoldable pub thread_reap_terminated : (fuel : ℕ) → Kernel → (current : Ptr) → Option Kernel
thread_reap_terminated fuel k current = reap_loop fuel k current 0 k.terminated_queue_head
