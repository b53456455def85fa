-- ===== src/Process/Switch/Tests.antt =====
-- A kernel whose thread at 0x1000 runs, with the threads at 0x2000 and 0x3000 ready.
use miyar_os.Base.{◌≡◌, refl, some, List, [], ◌∷◌, ◌++◌, arith}
use miyar_os.Process.Kernel.{Ptr, ready, blocked, terminated, Kernel}
use miyar_os.Process.Thread.{
  thread_enqueue, thread_enqueue_terminated, thread_dequeue, thread_terminate_process_threads,
  thread_reap_terminated,
}
use miyar_os.Process.Switch.{thread_yield, thread_block, thread_terminate, requeue, switch_to}
use miyar_os.Process.Sample.{ready_threads, kernel-IsScheduled, kernel-Queues, kernel}
use miyar_os.Process.Queue.{Queues}
use miyar_os.Process.Queue.Enqueue.{thread_enqueue_terminated-Queues}
use miyar_os.Process.Queue.Remove.{terminate_process_threads-Queues}
use miyar_os.Process.Queue.Reap.{kept, thread_reap_terminated-Queues}
use miyar_os.Process.Switch.Rotate.{Switched}
use miyar_os.Process.Switch.Steps.{
  thread_block-Queues, thread_yield-Queues, thread_terminate-Queues,
}

yield_run : (thread_yield kernel).ready_queue_tail ≡ 0x1000
unfolding thread_yield thread_dequeue requeue thread_enqueue switch_to
yield_run = refl

abbrev ended : Kernel
ended = thread_enqueue_terminated kernel 0x1000

ended-Queues : Queues ended ready_threads (0x1000 ∷ [])
ended-Queues =
    thread_enqueue_terminated-Queues 0x1000 kernel-Queues (omega arith)
      (omega arith, (omega arith, tt)) tt

thread_reap_terminated-Queues_example :
    (j : Kernel) × (thread_reap_terminated 2 ended 0x9000 ≡ some j)
    × Queues j ready_threads (kept 0x9000 (0x1000 ∷ []))
thread_reap_terminated-Queues_example =
    thread_reap_terminated-Queues 2 0x9000 ended-Queues (omega arith)

-- The thread at 0x2000 is of process 0x7000, and the thread at 0x3000 is not.
terminate_process_threads-Queues_example :
    (j : Kernel) × (thread_terminate_process_threads 3 kernel 0x7000 ≡ some j)
    × Queues j (0x3000 ∷ []) (0x2000 ∷ [])
terminate_process_threads-Queues_example =
    terminate_process_threads-Queues 3 0x7000 kernel-Queues (omega arith) (omega arith)

thread_block-Queues_example :
    Queues (thread_block kernel) (0x3000 ∷ []) []
    × Switched kernel (thread_block kernel) 0x1000 0x2000 blocked
thread_block-Queues_example = thread_block-Queues kernel-IsScheduled (omega arith)

thread_yield-Queues_example :
    ((x : Ptr) (zs : List Ptr)
      → ready_threads ≡ x ∷ zs
      → Queues (thread_yield kernel) (zs ++ 0x1000 ∷ []) []
        × Switched kernel (thread_yield kernel) 0x1000 x ready)
    × (ready_threads ≡ [] → thread_yield kernel ≡ kernel)
thread_yield-Queues_example = thread_yield-Queues (omega arith) kernel-IsScheduled

thread_terminate-Queues_example :
    Queues (thread_terminate kernel) (0x3000 ∷ []) (0x1000 ∷ [])
    × Switched kernel (thread_terminate kernel) 0x1000 0x2000 terminated
thread_terminate-Queues_example =
    thread_terminate-Queues kernel-IsScheduled (omega arith) (omega arith)
