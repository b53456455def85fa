-- ===== src/Process/Proc.antt =====
-- kernel/process/process.c, but for `process_exit`, which is in Process/Switch. What the functions
-- print is left out.
use miyar_os.Base.{
  ℕ, zero, suc, ◌+◌, not, ◌&&◌, Option, none, some, List, [], ◌∷◌, ◌==◌, if◌then◌else◌, ◌>>=◌,
}
use miyar_os.Memory.Vm
use miyar_os.Memory.Vm.{Vm}
use miyar_os.Memory.Vm.Space.{address_space_create, address_space_destroy}
use miyar_os.Process.Kernel.{Ptr, alive, is_dead, Kernel, set_process, inc32, kfree}

abbrev pub process_name_max : ℕ
process_name_max = 32

-- sizeof(process_t)
abbrev pub process_size : ℕ
process_size = 56

-- `p->next = n`
abbrev pub set_next_process : Kernel → Ptr → Ptr → Kernel
set_next_process k p n = set_process k p (record (k.processes p) { next = n })

-- The 32 bytes that the loop of `process_create` writes. `name` is the memory behind the pointer,
-- which the loop reads to its own end: a zero byte does not stop it.
pub name_bytes : (rounds i : ℕ) → (ℕ → ℕ) → List ℕ
name_bytes zero i name = []
name_bytes (suc n) i name = name i ∷ name_bytes n (i + 1) name

append_process : Kernel → Ptr → Kernel
append_process k p =
    if k.process_list_tail == 0
    then record k { process_list_head = p; process_list_tail = p }
    else record (set_next_process k k.process_list_tail p) { process_list_tail = p }

process_setup : Kernel → (p space : Ptr) → (ℕ → ℕ) → Kernel
unfolding append_process name_bytes
process_setup k p space name =
    append_process
      (record (set_process k p (record {
        pid = k.next_pid;
        name = name_bytes process_name_max 0 name;
        address_space = space;
        parent = 0;
        thread_count = 0;
        next = 0;
        state = alive;
      })) { next_pid = inc32 k.next_pid })
      p

-- A NULL name writes zeros, as a pointer to zeros does.
unfoldable pub process_create : Kernel → (name : ℕ → ℕ) → Ptr × Kernel
unfolding process_setup
process_create k name =
    let (p, vm) = Vm.kmalloc k.vm process_size in
    let (space, vm') = address_space_create vm in
    if p == 0
    then (0, record k { vm = vm })
    else if space == 0
    then (0, kfree (record k { vm = vm' }) p)
    else (p, process_setup (record k { vm = vm' }) p space name)

-- "kernel", and zeros.
abbrev kernel_name : List ℕ
kernel_name = b'k' ∷ b'e' ∷ b'r' ∷ b'n' ∷ b'e' ∷ b'l' ∷ name_bytes 26 0 (λ i. 0)

-- `process_init` once the kernel's process is there: its own address space, if it has one, gives
-- way to the current one.
adopt_kernel : Kernel → (p : Ptr) → Kernel
adopt_kernel k p =
    let r = k.processes p in
    let current = k.vm.current_address_space in
    let vm =
      if r.address_space == current then k.vm else address_space_destroy k.vm r.address_space in
    record (set_process (record k { vm = vm }) p
      (record r {
        pid = 0;
        name = kernel_name;
        address_space = current;
        parent = 0;
        thread_count = 0;
        next = 0;
        state = alive;
      })) { kernel_process = p; current_process = p; process_list_head = p; process_list_tail = p }

pub process_init : Kernel → Kernel
unfolding process_create adopt_kernel
process_init k =
    let (p, k') =
      process_create (record k { next_pid = 1; current_process = 0; kernel_process = 0 })
        (λ i. 0) in
    if p == 0 then k' else adopt_kernel k' p

unfoldable pub process_set_current : Kernel → Ptr → Kernel
process_set_current k p = if p == 0 then k else record k { current_process = p }

-- The loop of `process_find`: the process's address, 0 for none.
pub find_loop : (fuel : ℕ) → Kernel → (pid : ℕ) → (p : Ptr) → Option Ptr
find_loop zero k pid p = none
find_loop (suc fuel) k pid p =
    let rest = find_loop fuel k pid (k.processes p).next in
    if p == 0 then some 0 else if (k.processes p).pid == pid then some p else rest

pub process_find : (fuel : ℕ) → Kernel → (pid : ℕ) → Option Ptr
process_find fuel k pid = find_loop fuel k pid k.process_list_head

-- The loop of `process_destroy`, which takes the process out of the list.
unfoldable pub remove_loop : (fuel : ℕ) → Kernel → (process previous current : Ptr) → Option Kernel
remove_loop zero k process previous current = none
remove_loop (suc fuel) k process previous current =
    let next = (k.processes current).next in
    let linked =
      if previous == 0
      then record k { process_list_head = next }
      else set_next_process k previous next in
    let removed =
      if linked.process_list_tail == current
      then record linked { process_list_tail = previous }
      else linked in
    let rest = remove_loop fuel k process current next in
    if current == 0 then some k else if current == process then some removed else rest

destroy_space : Kernel → (p : Ptr) → Kernel
destroy_space k p =
    let r = k.processes p in
    if r.address_space == 0
    then k
    else set_process (record k { vm = address_space_destroy k.vm r.address_space }) p
        (record r { address_space = 0 })

unfoldable pub process_destroy : (fuel : ℕ) → Kernel → (p : Ptr) → Option Kernel
unfolding destroy_space
process_destroy fuel k p =
    let left = if p == k.current_process then record k { current_process = 0 } else k in
    let bare = destroy_space left p in
    let done = do removed ← remove_loop fuel bare p 0 bare.process_list_head; some (kfree removed p)
    in if p == 0
      then some k
      else if p == k.kernel_process
      then some k
      else if not ((k.processes p).thread_count == 0)
      then some k
      else done

-- The loop of `process_reap_terminated`; the fuel bounds the loop of each `process_destroy` too.
unfoldable pub process_reap_loop : (fuel : ℕ) → Kernel → (p : Ptr) → Option Kernel
process_reap_loop zero k p = none
process_reap_loop (suc fuel) k p =
    let r = k.processes p in
    let reaped =
      if not (p == k.kernel_process)
        && (not (p == k.current_process) && (is_dead r.state && (r.thread_count == 0)))
      then process_destroy (suc fuel) k p
      else some k in
    let rest = reaped >>= λ k'. process_reap_loop fuel k' r.next in if p == 0 then some k else rest

unfoldable pub process_reap_terminated : (fuel : ℕ) → Kernel → Option Kernel
process_reap_terminated fuel k = process_reap_loop fuel k k.process_list_head
