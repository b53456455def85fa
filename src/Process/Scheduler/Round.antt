-- ===== src/Process/Scheduler/Round.antt =====
-- A timer tick as a whole.
use mathlib.Core.Path.{subst}
use miyar_os.Base.{
  ℕ, zero, suc, ◌<◌, ◌≡◌, ◌≢◌, refl, sym, ap, ◌∙◌, Bool, true, false, not, ◌&&◌, some, List, [],
  ◌∷◌, ◌++◌, length, ◌==◌, ==-ne, arith,
}
use miyar_os.Process.Kernel.{Ptr, Process, is_dead, Kernel}
use miyar_os.Process.Thread.{thread_reap_terminated, reap_loop}
use miyar_os.Process.Proc.{process_reap_loop, process_reap_terminated}
use miyar_os.Process.Switch.{next_or_idle}
use miyar_os.Process.Queue.{Queues}
use miyar_os.Process.Switch.Rotate.{IsScheduled, chosen, rest}
use miyar_os.Process.Scheduler.{choose, clean_up, scheduler_schedule}
use miyar_os.Process.Scheduler.Tick.{
  Chosen, saved_at, found, found-chosen, choose-Queues, choose-Chosen,
}
use miyar_os.Process.Switch.Steps.{chosen-ne}

-- Following `next` from `p` leads through the processes of the list to NULL, and none of them is
-- dead.
abbrev pub Alive : (Ptr → Process) → Ptr → List Ptr → Type 0
Alive f p [] = p ≡ 0
Alive f p (x ∷ xs) = (p ≡ x) × (x ≢ 0) × (is_dead (f x).state ≡ false) × Alive f (f x).next xs

and-false : (a b d : Bool) → (a && (b && (false && d))) ≡ false
and-false true true d = refl
and-false true false d = refl
and-false false b d = refl

process_reap_loop-past :
    (fuel : ℕ) (k : Kernel) (p : Ptr)
    → p ≢ 0
    → is_dead (k.processes p).state ≡ false
    → process_reap_loop (suc fuel) k p ≡ process_reap_loop fuel k (k.processes p).next
unfolding process_reap_loop
process_reap_loop-past fuel k p ne alive =
    rw
      (
        ==-ne p 0 ne,
        alive,
        and-false (not (p == k.kernel_process)) (not (p == k.current_process))
            ((k.processes p).thread_count == 0),
      )
      refl

process_reap_loop-null : (fuel : ℕ) (k : Kernel) → process_reap_loop (suc fuel) k 0 ≡ some k
unfolding process_reap_loop
process_reap_loop-null fuel k = refl

process_reap_loop-Alive :
    (fuel : ℕ) (k : Kernel) (p : Ptr) (ps : List Ptr)
    → length ps < fuel
    → Alive k.processes p ps
    → process_reap_loop fuel k p ≡ some k
process_reap_loop-Alive zero k p ps enough h = absurd (omega (arith, enough))
process_reap_loop-Alive (suc fuel) k p [] enough h =
    ap (process_reap_loop (suc fuel) k) h ∙ process_reap_loop-null fuel k
process_reap_loop-Alive (suc fuel) k p (x ∷ xs) enough (is, ne, alive, below) =
    ap (process_reap_loop (suc fuel) k) is
    ∙ process_reap_loop-past fuel k x ne alive
    ∙ process_reap_loop-Alive fuel k (k.processes x).next xs (omega (arith, enough)) below

process_reap_terminated-Alive :
    (fuel : ℕ) (k : Kernel) (ps : List Ptr)
    → length ps < fuel
    → Alive k.processes k.process_list_head ps
    → process_reap_terminated fuel k ≡ some k
unfolding process_reap_terminated
process_reap_terminated-Alive fuel k ps enough h =
    process_reap_loop-Alive fuel k k.process_list_head ps enough h

reap_loop-null : (fuel : ℕ) (k : Kernel) (c : Ptr) → reap_loop (suc fuel) k c 0 0 ≡ some k
unfolding reap_loop
reap_loop-null fuel k c = refl

thread_reap_terminated-none :
    (fuel : ℕ) (k : Kernel) (c : Ptr)
    → k.terminated_queue_head ≡ 0
    → thread_reap_terminated (suc fuel) k c ≡ some k
unfolding thread_reap_terminated
thread_reap_terminated-none fuel k c h = ap (reap_loop (suc fuel) k c 0) h ∙ reap_loop-null fuel k c

clean_up-nothing :
    (fuel : ℕ) (k : Kernel) (c n : Ptr)
    → thread_reap_terminated fuel k c ≡ some k
    → process_reap_terminated fuel k ≡ some k
    → clean_up fuel k c n ≡ some ((k.threads n).saved_esp, k)
unfolding clean_up
clean_up-nothing fuel k c n threads processes = rw (threads, processes) refl

scheduler_schedule-switches :
    (fuel : ℕ) (k : Kernel) (r : ℕ)
    → k.current_thread ≢ 0
    → (next_or_idle (saved_at k k.current_thread r)).0 ≢ 0
    → let (n, j) = next_or_idle (saved_at k k.current_thread r) in
      scheduler_schedule fuel k r ≡ clean_up fuel (choose j k.current_thread n) k.current_thread n
unfolding scheduler_schedule
scheduler_schedule-switches fuel k r current next = rw (==-ne _ 0 current, ==-ne _ 0 next) refl

-- A tick of the timer that interrupts a thread other than the idle one, with no terminated thread
-- and no dead process, returns: the thread goes, ready, to the end of the ready queue, with the
-- stack pointer of the interrupt saved in it, and the first ready thread, or the idle thread if
-- there is none, is current and running; its saved stack pointer is the result. The fuel is above
-- the number of processes.
pub scheduler_schedule-Chosen :
    {k : Kernel} {xs : List Ptr} (fuel r : ℕ) (ps : List Ptr)
    → IsScheduled k xs []
    → k.current_thread ≢ k.idle_thread_instance
    → length ps < fuel
    → Alive k.processes k.process_list_head ps
    → (j : Kernel) × (scheduler_schedule fuel k r ≡ some ((k.threads (chosen k xs)).saved_esp, j))
      × Queues j (rest xs ++ (k.current_thread ∷ [])) []
      × Chosen k j k.current_thread (chosen k xs) r
scheduler_schedule-Chosen {k} {xs} zero r ps v ne enough alive = absurd (omega (arith, enough))
scheduler_schedule-Chosen {k} {xs} (suc f) r ps v ne enough alive =
    let c = k.current_thread in
    let (n, k') = found r v ne in
    let is = (found-chosen r v ne).0 in
    let some_thread : n ≢ 0 = λ e. (chosen-ne xs v ne).0 (sym is ∙ e) in
    let j = choose k' c n in
    let queues = choose-Queues r v ne in
    let made = choose-Chosen r v ne in
    let living : Alive j.processes j.process_list_head ps =
      subst (λ p. Alive j.processes p ps) (sym made.list)
        (subst (λ g. Alive g k.process_list_head ps) (sym made.processes) alive) in
    let threads = thread_reap_terminated-none f j c queues.done.chain in
    let processes : process_reap_terminated (suc f) j ≡ some j =
      process_reap_terminated-Alive (suc f) j ps enough living in
    let esp : (j.threads n).saved_esp ≡ (k.threads (chosen k xs)).saved_esp =
      ap (λ t. (j.threads t).saved_esp) is ∙ made.resumed in
    (
      j,
      scheduler_schedule-switches (suc f) k r v.current some_thread
          ∙ clean_up-nothing (suc f) j c n threads processes
          ∙ ap (λ e. some (e, j)) esp,
      queues,
      made,
    )
