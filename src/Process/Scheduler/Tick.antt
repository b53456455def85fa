-- ===== src/Process/Scheduler/Tick.antt =====
-- The queues under `scheduler_schedule`.
use mathlib.Core.Path.{subst}
use miyar_os.Base.{ℕ, ◌≡◌, ◌≢◌, refl, sym, ap, ◌∙◌, List, [], ◌∷◌, ◌++◌, ==-ne, arith}
use miyar_os.Process.Kernel.{Ptr, ready, running, Kernel, set_thread, set_state}
use miyar_os.Process.Thread.{thread_enqueue, thread_dequeue}
use miyar_os.Process.Proc.{process_set_current}
use miyar_os.Process.Switch.{next_or_idle, enter_process, requeue}
use miyar_os.Process.Queue.{Queues, Absent}
use miyar_os.Process.Queue.Enqueue.{thread_enqueue-Queues}
use miyar_os.Process.Switch.Rotate.{
  IsScheduled, SameLinks, Queues-SameLinks, next_or_idle-SameRest, chosen, rest,
  next_or_idle-Queues,
}
use miyar_os.Process.Switch.Steps.{chosen-ne, requeue-running, thread_enqueue-Enqueued}
use miyar_os.Process.Scheduler.{choose}

-- What the switch of processes and the change of the running thread leave alone.
switched : Kernel → (current next : Ptr) → Kernel
switched k current next =
    enter_process (record (set_state k next running) { current_thread = next }) current next

switched-SameLinks : (k : Kernel) (c n : Ptr) → SameLinks k (switched k c n)
unfolding switched enter_process
switched-SameLinks k c n = record {
  next = λ u. ground arith;
  ready_head = ground arith;
  ready_tail = ground arith;
  done_head = ground arith;
  done_tail = ground arith;
}

-- The kernel `j` after the choice of the thread `n` in `k`, whose thread `c` was interrupted at
-- `r`.
pub record Chosen (k j : Kernel) (c n : Ptr) (r : ℕ) : Type 0 where
  pub current : j.current_thread ≡ n
  pub runs : (j.threads n).state ≡ running
  pub waits : (j.threads c).state ≡ ready
  pub saved : (j.threads c).saved_esp ≡ r
  pub resumed : (j.threads n).saved_esp ≡ (k.threads n).saved_esp
  pub idle : j.idle_thread_instance ≡ k.idle_thread_instance
  pub processes : j.processes ≡ k.processes
  pub list : j.process_list_head ≡ k.process_list_head

abbrev pub saved_at : Kernel → Ptr → ℕ → Kernel
saved_at k c r = set_thread k c (record (k.threads c) { saved_esp = r })

saved_at-SameLinks : (k : Kernel) (c : Ptr) (r : ℕ) → SameLinks k (saved_at k c r)
saved_at-SameLinks k c r = record {
  next = λ u. ground arith;
  ready_head = refl;
  ready_tail = refl;
  done_head = refl;
  done_tail = refl;
}

chosen-saved_at :
    (k : Kernel) (c : Ptr) (r : ℕ) (xs : List Ptr) → chosen (saved_at k c r) xs ≡ chosen k xs
chosen-saved_at k c r [] = refl
chosen-saved_at k c r (x ∷ xs) = refl

choose-requeue :
    (k : Kernel) (c n : Ptr)
    → c ≢ k.idle_thread_instance
    → choose k c n ≡ switched (requeue k c) c n
unfolding choose switched
choose-requeue k c n ne = rw (==-ne c k.idle_thread_instance ne) refl

-- What enqueueing and the choice leave of the processes.
next_or_idle-processes :
    (k : Kernel)
    → ((next_or_idle k).1.processes ≡ k.processes)
      × ((next_or_idle k).1.process_list_head ≡ k.process_list_head)
unfolding next_or_idle thread_dequeue
next_or_idle-processes k = (ground arith, ground arith)

thread_enqueue-processes :
    (k : Kernel) (t : Ptr)
    → ((thread_enqueue k t).processes ≡ k.processes)
      × ((thread_enqueue k t).process_list_head ≡ k.process_list_head)
unfolding thread_enqueue
thread_enqueue-processes k t = (ground arith, ground arith)

switched-Chosen :
    (k : Kernel) (c n : Ptr) (r : ℕ)
    → c ≢ n
    → (k.threads c).state ≡ ready
    → (k.threads c).saved_esp ≡ r
    → Chosen k (switched k c n) c n r
unfolding switched enter_process process_set_current
switched-Chosen k c n r ne state saved = record {
  current = ground arith;
  runs = ground arith;
  waits = ground arith;
  saved = ground arith;
  resumed = ground arith;
  idle = ground arith;
  processes = ground arith;
  list = ground arith;
}

saved_at-saved : (k : Kernel) (c : Ptr) (r : ℕ) → ((saved_at k c r).threads c).saved_esp ≡ r
saved_at-saved k c r = ground arith

saved_at-other :
    (k : Kernel) (c u : Ptr) (r : ℕ)
    → c ≢ u
    → ((saved_at k c r).threads u).saved_esp ≡ (k.threads u).saved_esp
saved_at-other k c u r ne = ground arith

saved_at-state :
    (k : Kernel) (c u : Ptr) (r : ℕ) → ((saved_at k c r).threads u).state ≡ (k.threads u).state
saved_at-state k c u r = ground arith

Absent-rest : (t : Ptr) (xs : List Ptr) → Absent t xs → Absent t (rest xs)
Absent-rest t [] h = tt
Absent-rest t (x ∷ xs) h = h.1

-- The choice for an interrupted thread other than the idle one.
module _ {k : Kernel} {xs ys : List Ptr} (r : ℕ) (v : IsScheduled k xs ys)
    (ne : k.current_thread ≢ k.idle_thread_instance) where
  abbrev pub interrupted : Kernel
  interrupted = saved_at k k.current_thread r

  abbrev pub found : Ptr × Kernel
  found = next_or_idle interrupted

  pub found-chosen : (found.0 ≡ chosen k xs) × Queues found.1 (rest xs) ys
  found-chosen =
      let (first, left) =
        next_or_idle-Queues xs
          (Queues-SameLinks (saved_at-SameLinks k k.current_thread r) v.queues) in
      (first ∙ chosen-saved_at k k.current_thread r xs, left)

  choose-switched :
      choose found.1 k.current_thread found.0
      ≡ switched (thread_enqueue found.1 k.current_thread) k.current_thread (chosen k xs)
  choose-switched =
      let c = k.current_thread in
      let same = next_or_idle-SameRest interrupted in
      let other : c ≢ found.1.idle_thread_instance = λ e. ne (e ∙ same.idle) in
      let go : requeue found.1 c ≡ thread_enqueue found.1 c =
        requeue-running found.1 c (same.state c ∙ saved_at-state k c c r ∙ v.state) in
      choose-requeue found.1 c found.0 other
      ∙ ap (λ t. switched t c found.0) go
      ∙ ap (switched (thread_enqueue found.1 c) c) found-chosen.0

  pub choose-Queues :
      Queues (choose found.1 k.current_thread found.0) (rest xs ++ (k.current_thread ∷ [])) ys
  choose-Queues =
      let c = k.current_thread in
      let queued =
        thread_enqueue-Queues c found-chosen.1 v.current (Absent-rest c xs v.off_ready)
          v.off_done in
      subst (λ j. Queues j (rest xs ++ (c ∷ [])) ys) (sym choose-switched)
        (Queues-SameLinks (switched-SameLinks (thread_enqueue found.1 c) c (chosen k xs)) queued)

  pub choose-Chosen :
      Chosen k (choose found.1 k.current_thread found.0) k.current_thread (chosen k xs) r
  choose-Chosen =
      let c = k.current_thread in
      let m = chosen k xs in
      let same = next_or_idle-SameRest interrupted in
      let put = thread_enqueue-Enqueued found.1 c v.current in
      let apart : c ≢ m = (chosen-ne xs v ne).1 in
      let sw =
        switched-Chosen (thread_enqueue found.1 c) c m r apart put.state
          (put.saved_esp c ∙ same.saved_esp c ∙ saved_at-saved k c r) in
      let (processes, list) = thread_enqueue-processes found.1 c in
      let (before, list_before) = next_or_idle-processes interrupted in
      subst (λ j. Chosen k j c m r) (sym choose-switched)
        (record {
          current = sw.current;
          runs = sw.runs;
          waits = sw.waits;
          saved = sw.saved;
          resumed = sw.resumed ∙ put.saved_esp m ∙ same.saved_esp m ∙ saved_at-other k c m r apart;
          idle = sw.idle ∙ put.idle ∙ same.idle;
          processes = sw.processes ∙ processes ∙ before;
          list = sw.list ∙ list ∙ list_before;
        })
