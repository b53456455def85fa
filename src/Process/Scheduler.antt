-- ===== src/Process/Scheduler.antt =====
-- kernel/process/scheduler.c: what the timer interrupt does.
pub mod Tick
pub mod Round
use miyar_os.Base.{ℕ, Option, some, ◌==◌, if◌then◌else◌, ◌>>=◌}
use miyar_os.Process.Kernel.{Ptr, running, Kernel, set_thread, set_state}
use miyar_os.Process.Thread.{thread_reap_terminated}
use miyar_os.Process.Proc.{process_reap_terminated}
use miyar_os.Process.Switch.{next_or_idle, enter_process, requeue}

-- The scheduler's choice, before the cleaning up: the next thread is current and running, and the
-- one that was current is queued if it can go on and is not the idle thread.
unfoldable pub choose : Kernel → (current next : Ptr) → Kernel
unfolding requeue enter_process
choose k current next =
    let queued = if current == k.idle_thread_instance then k else requeue k current in
    enter_process (record (set_state queued next running) { current_thread = next }) current next

-- The end of `scheduler_schedule`: the reaping, and the stack pointer of the thread to run.
unfoldable pub clean_up : (fuel : ℕ) → Kernel → (current next : Ptr) → Option (ℕ × Kernel)
clean_up fuel k current next = do
  reaped ← thread_reap_terminated fuel k current
  done ← process_reap_terminated fuel reaped
  some ((done.threads next).saved_esp, done)

-- `r` is the address of the interrupted thread's frame; the result is the stack pointer to restore.
unfoldable pub scheduler_schedule : (fuel : ℕ) → Kernel → (r : Ptr) → Option (ℕ × Kernel)
scheduler_schedule fuel k r =
    let current = k.current_thread in
    let saved = set_thread k current (record (k.threads current) { saved_esp = r }) in
    let (next, k') = next_or_idle saved in
    let switched = clean_up fuel (choose k' current next) current next in
    if current == 0
    then some (r, k)
    else if next == 0
    then some ((k'.threads current).saved_esp, k')
    else switched
