-- ===== src/Arch/Irq/Tick.antt =====
-- The timer's interrupt: kernel/arch/x86/irq.c with kernel/drivers/timer.c and the scheduler.
use miyar_os.Base.{ℕ, ◌+◌, ◌%◌, ◌^◌, ◌<◌, ◌≡◌, ◌≢◌, refl, some, List, [], ◌∷◌, ◌++◌, length}
use miyar_os.Drivers.Pic.{pic_send_eoi}
use miyar_os.Drivers.Timer.{timer_tick}
use miyar_os.Process.Kernel.{Ptr, Kernel}
use miyar_os.Process.Queue.{Queues}
use miyar_os.Process.Switch.Rotate.{IsScheduled, chosen, rest}
use miyar_os.Process.Scheduler.{scheduler_schedule}
use miyar_os.Process.Scheduler.Tick.{Chosen}
use miyar_os.Process.Scheduler.Round.{Alive, scheduler_schedule-Chosen}
use miyar_os.Arch.Irq.{Machine, irq_handler}

-- The machine after a tick that leaves the kernel `k`: the clock has moved, the controller is told
-- once, and the keyboard is as before.
abbrev pub ticked : Machine → Kernel → Machine
ticked m k = record m {
  kernel = k;
  ticks = (m.ticks + 1) % 2 ^ 32;
  sent = m.sent ++ ((0x20, 0x20) ∷ []);
}

irq_handler-timer :
    (fuel r scancode esp : ℕ) (m : Machine) (k : Kernel)
    → scheduler_schedule fuel m.kernel r ≡ some (esp, k)
    → irq_handler fuel r 32 scancode m ≡ some (esp, ticked m k)
unfolding irq_handler timer_tick pic_send_eoi
irq_handler-timer fuel r scancode esp m k scheduled = rw (scheduled) refl

-- The timer's interrupt in a thread other than the idle one, with no terminated thread and no dead
-- process, returns: the thread goes, ready, to the end of the ready queue, with the stack pointer
-- of the interrupt saved in it; the first ready thread, or the idle thread if there is none, is
-- current and running, and its saved stack pointer is the result; the clock has moved by one, and
-- the interrupt is acknowledged once. The fuel is above the number of processes.
pub irq_handler-Chosen :
    {xs : List Ptr} (fuel r scancode : ℕ) (m : Machine) (ps : List Ptr)
    → IsScheduled m.kernel xs []
    → m.kernel.current_thread ≢ m.kernel.idle_thread_instance
    → length ps < fuel
    → Alive m.kernel.processes m.kernel.process_list_head ps
    → (j : Kernel) × (irq_handler fuel r 32 scancode m
        ≡ some ((m.kernel.threads (chosen m.kernel xs)).saved_esp, ticked m j))
      × Queues j (rest xs ++ (m.kernel.current_thread ∷ [])) []
      × Chosen m.kernel j m.kernel.current_thread (chosen m.kernel xs) r
irq_handler-Chosen {xs} fuel r scancode m ps v ne enough alive =
    let (j, ran, queues, made) = scheduler_schedule-Chosen fuel r ps v ne enough alive in
    (
      j,
      irq_handler-timer fuel r scancode (m.kernel.threads (chosen m.kernel xs)).saved_esp m j ran,
      queues,
      made,
    )
