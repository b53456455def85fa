-- ===== src/Process/Queue/Remove.antt =====
-- `thread_terminate_process_threads`: which threads leave the ready queue, and where they go.
use mathlib.Core.List.{append-nil, append_assoc}
use miyar_os.Base.{
  ℕ, zero, suc, ◌<◌, ◌≡◌, ◌≢◌, refl, sym, ap, ◌∙◌, Bool, true, false, not, ◌&&◌, Option, some, List,
  [], ◌∷◌, ◌++◌, ◌==◌, ==-ne, inl, inr, Bool-cases, if◌then◌else◌, length, arith,
}
use miyar_os.Process.Kernel.{Ptr, Kernel}
use miyar_os.Process.Thread.{
  thread_enqueue_terminated, unlink_ready, terminate_loop, thread_terminate_process_threads,
}
use miyar_os.Process.Queue.{last_or, Queues, last_or-snoc}
use miyar_os.Process.Queue.Unlink.{
  head_or, Chain-next, Chain-head, removed-Absent, unlink_ready-Queues,
}
use miyar_os.Process.Queue.Enqueue.{thread_enqueue_terminated-Queues}

-- Whether the loop takes the thread out.
abbrev pub goes : Kernel → (process t : Ptr) → Bool
goes k process t = ((k.threads t).process == process) && not (t == k.current_thread)

abbrev pub staying : Kernel → Ptr → List Ptr → List Ptr
staying k process [] = []
staying k process (x ∷ xs) =
    if goes k process x then staying k process xs else x ∷ staying k process xs

abbrev pub going : Kernel → Ptr → List Ptr → List Ptr
going k process [] = []
going k process (x ∷ xs) = if goes k process x then x ∷ going k process xs else going k process xs

-- One round takes `x` out of the ready queue and puts it at the end of the terminated queue.
abbrev removed : Kernel → (previous t next : Ptr) → Kernel
removed k previous t next = thread_enqueue_terminated (unlink_ready k previous t next) t

removed-Queues :
    {k : Kernel} (zs : List Ptr) (x : Ptr) (xs ys : List Ptr)
    → Queues k (zs ++ x ∷ xs) ys
    → Queues (removed k (last_or 0 zs) x (head_or xs)) (zs ++ xs) (ys ++ x ∷ [])
removed-Queues {k} zs x xs ys q =
    let (out, apart) = removed-Absent zs x xs ys q in
    let next = Chain-next k.threads k.ready_queue_head zs x xs q.ready.chain in
    thread_enqueue_terminated-Queues x (unlink_ready-Queues zs x xs ys q) next.0 out apart

-- It changes no thread's process, nor which thread is current.
process-removed :
    (k : Kernel) (previous t next u : Ptr)
    → (((removed k previous t next).threads u).process ≡ (k.threads u).process)
      × ((removed k previous t next).current_thread ≡ k.current_thread)
unfolding thread_enqueue_terminated unlink_ready
process-removed k previous t next u = ground arith

staying-same :
    (j k : Kernel) (process : Ptr) (xs : List Ptr)
    → ((u : Ptr) → goes j process u ≡ goes k process u)
    → (staying j process xs ≡ staying k process xs) × (going j process xs ≡ going k process xs)
staying-same j k process [] same = (refl, refl)
staying-same j k process (x ∷ xs) same =
    let (a, b) = staying-same j k process xs same in (rw (same x, a), rw (same x, b))

-- One round of the loop: at the end, at a thread that goes, and at one that stays.
module _ (fuel : ℕ) (k : Kernel) (process previous x n : Ptr) (ne : x ≢ 0)
    (next : (k.threads x).next ≡ n) where
  terminate_loop-goes :
      goes k process x ≡ true
      → terminate_loop (suc fuel) k process previous x
        ≡ terminate_loop fuel (removed k previous x n) process previous n
  unfolding terminate_loop
  terminate_loop-goes hit = rw (==-ne x 0 ne, hit, next)

  terminate_loop-stays :
      goes k process x ≡ false
      → terminate_loop (suc fuel) k process previous x ≡ terminate_loop fuel k process x n
  unfolding terminate_loop
  terminate_loop-stays miss = rw (==-ne x 0 ne, miss, next)

terminate_loop-end :
    (fuel : ℕ) (k : Kernel) (process previous : Ptr)
    → terminate_loop (suc fuel) k process previous 0 ≡ some k
unfolding terminate_loop
terminate_loop-end fuel k process previous = refl

-- What the loop leaves: its fuel suffices, the queues are as stated, and no thread has changed its
-- process.
abbrev Moved : Kernel → (process : Ptr) → (zs xs ys : List Ptr) → Option Kernel → Type 0
Moved k process zs xs ys out =
    (j : Kernel) × (out ≡ some j) × Queues j (zs ++ staying k process xs) (ys ++ going k process xs)

terminate_loop-Moved :
    (fuel : ℕ) {k : Kernel} (process : Ptr) (zs xs ys : List Ptr)
    → Queues k (zs ++ xs) ys
    → length xs < fuel
    → Moved k process zs xs ys (terminate_loop fuel k process (last_or 0 zs) (head_or xs))
terminate_loop-Moved zero process zs xs ys q lt = absurd (omega arith)
terminate_loop-Moved (suc fuel) {k} process zs [] ys q lt =
    (k, terminate_loop-end fuel k process (last_or 0 zs), rw (append-nil ys) q)
terminate_loop-Moved (suc fuel) {k} process zs (x ∷ xs) ys q lt =
    let (ne, next) = Chain-next k.threads k.ready_queue_head zs x xs q.ready.chain in
    elim (Bool-cases (goes k process x)) [
      | inl hit ↦
          let k' = removed k (last_or 0 zs) x (head_or xs) in
          let same =
            staying-same k' k process xs
              (λ u. ground (arith, process-removed k (last_or 0 zs) x (head_or xs) u)) in
          let (j, e, r) =
            terminate_loop-Moved fuel {k = k'} process zs xs (ys ++ x ∷ [])
              (removed-Queues zs x xs ys q) (omega arith) in
          (
            j,
            terminate_loop-goes fuel k process (last_or 0 zs) x (head_or xs) ne next hit ∙ e,
            rw hit (rw (same.0, same.1, append_assoc) at r),
          )
      | inr miss ↦
          let q' : Queues k ((zs ++ x ∷ []) ++ xs) ys = rw append_assoc q in
          let (j, e, r) = terminate_loop-Moved fuel process (zs ++ x ∷ []) xs ys q' (omega arith) in
          (
            j,
            terminate_loop-stays fuel k process (last_or 0 zs) x (head_or xs) ne next miss
                ∙ ap (λ p. terminate_loop fuel k process p (head_or xs)) (sym (last_or-snoc 0 zs x))
                ∙ e,
            rw miss (rw append_assoc at r),
          )
    ]

-- With fuel above the length of the ready queue, `thread_terminate_process_threads` of a process
-- ends. The process's threads but the current one have gone, in their order, from the ready queue
-- to the end of the terminated queue, and the others are left in their order.
pub terminate_process_threads-Queues :
    (fuel : ℕ) {k : Kernel} {xs ys : List Ptr} (process : Ptr)
    → Queues k xs ys
    → process ≢ 0
    → length xs < fuel
    → (j : Kernel) × (thread_terminate_process_threads fuel k process ≡ some j)
      × Queues j (staying k process xs) (ys ++ going k process xs)
unfolding thread_terminate_process_threads
terminate_process_threads-Queues fuel {k} {xs} {ys} process q ne lt =
    let (j, e, r) = terminate_loop-Moved fuel process [] xs ys q lt in
    let head = Chain-head k.threads k.ready_queue_head xs q.ready.chain in
    (j, rw (==-ne process 0 ne) (ap (terminate_loop fuel k process 0) head ∙ e), r)
