-- ===== src/Process/Switch/Steps.antt =====
-- Each way of giving the processor away, from a kernel whose current thread runs.
use miyar_os.Base.{◌≡◌, ◌≢◌, refl, ap, ◌∙◌, List, [], ◌∷◌, ◌++◌, ==-ne, arith}
use miyar_os.Process.Kernel.{
  Ptr, ThreadState, ready, running, blocked, terminated, Kernel, set_state,
}
use miyar_os.Process.Thread.{thread_dequeue, thread_enqueue, thread_enqueue_terminated}
use miyar_os.Process.Switch.{
  switch_to, next_or_idle, requeue, thread_yield, thread_block, thread_terminate,
}
use miyar_os.Process.Queue.{Chain, Absent, Queues}
use miyar_os.Process.Queue.Enqueue.{thread_enqueue-Queues, thread_enqueue_terminated-Queues}
use miyar_os.Process.Queue.Dequeue.{thread_dequeue-nil, thread_dequeue-cons}
use miyar_os.Process.Switch.Rotate.{
  IsScheduled, Switched, Queues-SameLinks, switch_to-SameLinks, switch_to-Switched,
  set_state-SameLinks, thread_dequeue-SameRest, next_or_idle-SameRest, chosen, rest,
  next_or_idle-Queues,
}

-- The thread chosen is not NULL, and another than the current one.
pub chosen-ne :
    {k : Kernel} (xs : List Ptr) {ys : List Ptr}
    → IsScheduled k xs ys
    → k.current_thread ≢ k.idle_thread_instance
    → (chosen k xs ≢ 0) × (k.current_thread ≢ chosen k xs)
chosen-ne [] v ne = (v.idle, ne)
chosen-ne (x ∷ xs) v ne = (v.queues.ready.chain.1, v.off_ready.0)

-- Switching away from `c`, after what `k` has gone through has left all but the state of `c` alone.
finish :
    {k j : Kernel} {xs ys : List Ptr} (c n m : Ptr) (s : ThreadState)
    → Queues j xs ys
    → n ≡ m
    → c ≢ m
    → (j.threads c).state ≡ s
    → (j.threads m).saved_esp ≡ (k.threads m).saved_esp
    → j.idle_thread_instance ≡ k.idle_thread_instance
    → Queues (switch_to j c n) xs ys × Switched k (switch_to j c n) c m s
finish {k} {j} c n m s q e ne left esp idle = rw e (
  Queues-SameLinks (switch_to-SameLinks j c m) q,
  let w = switch_to-Switched j c m s ne left in
      record {
        current = w.current;
        runs = w.runs;
        left = w.left;
        esp = ground (arith, w.esp);
        idle = w.idle ∙ idle;
      },
)

chosen-set_state :
    (k : Kernel) (t : Ptr) (s : ThreadState) (xs : List Ptr)
    → chosen (set_state k t s) xs ≡ chosen k xs
chosen-set_state k t s [] = refl
chosen-set_state k t s (x ∷ xs) = refl

block-switch_to :
    (k : Kernel)
    → k.current_thread ≢ 0
    → (next_or_idle (set_state k k.current_thread blocked)).0 ≢ 0
    → let (n, j) = next_or_idle (set_state k k.current_thread blocked) in
      thread_block k ≡ switch_to j k.current_thread n
unfolding thread_block
block-switch_to k current some = rw (==-ne _ 0 current, ==-ne _ 0 some)

-- A thread other than the idle thread that blocks is in no queue, blocked, and the first ready
-- thread runs, or the idle thread if there is none. The other ready threads and the terminated ones
-- are left in their order.
pub thread_block-Queues :
    {k : Kernel} {xs ys : List Ptr}
    → IsScheduled k xs ys
    → k.current_thread ≢ k.idle_thread_instance
    → Queues (thread_block k) (rest xs) ys
      × Switched k (thread_block k) k.current_thread (chosen k xs) blocked
thread_block-Queues {k} {xs} v ne =
    let c = k.current_thread in
    let s = set_state k c blocked in
    let (first, left) =
      next_or_idle-Queues xs (Queues-SameLinks (set_state-SameLinks k c blocked) v.queues) in
    let e : (next_or_idle s).0 ≡ chosen k xs = first ∙ chosen-set_state k c blocked xs in
    let (some, other) = chosen-ne xs v ne in
    let same = next_or_idle-SameRest s in
    rw (block-switch_to k v.current (rw e some)) (
      finish c (next_or_idle s).0 (chosen k xs) blocked left e other (same.state c ∙ ground arith)
        (same.saved_esp (chosen k xs) ∙ ground arith) same.idle)

-- What enqueueing a thread leaves alone, and the state it gives.
pub record Enqueued (k j : Kernel) (t : Ptr) (s : ThreadState) : Type 0 where
  pub state : (j.threads t).state ≡ s
  pub saved_esp : (u : Ptr) → (j.threads u).saved_esp ≡ (k.threads u).saved_esp
  pub idle : j.idle_thread_instance ≡ k.idle_thread_instance

pub thread_enqueue-Enqueued :
    (k : Kernel) (t : Ptr) → t ≢ 0 → Enqueued k (thread_enqueue k t) t ready
unfolding thread_enqueue
thread_enqueue-Enqueued k t ne = record {
  state = ground arith;
  saved_esp = λ u. ground arith;
  idle = ground arith;
}

thread_enqueue_terminated-Enqueued :
    (k : Kernel) (t : Ptr) → t ≢ 0 → Enqueued k (thread_enqueue_terminated k t) t terminated
unfolding thread_enqueue_terminated
thread_enqueue_terminated-Enqueued k t ne = record {
  state = ground arith;
  saved_esp = λ u. ground arith;
  idle = ground arith;
}

pub requeue-running :
    (k : Kernel) (t : Ptr) → (k.threads t).state ≡ running → requeue k t ≡ thread_enqueue k t
unfolding requeue
requeue-running k t e = rw e

yield-switch_to :
    (k : Kernel)
    → k.current_thread ≢ 0
    → k.current_thread ≢ k.idle_thread_instance
    → (thread_dequeue k).0 ≢ 0
    → thread_yield k
      ≡ switch_to
          (requeue (thread_dequeue k).1 k.current_thread)
          k.current_thread
          (thread_dequeue k).0
unfolding thread_yield
yield-switch_to k current ne some =
    rw (==-ne _ 0 current, ==-ne k.current_thread k.idle_thread_instance ne, ==-ne _ 0 some)

yield-empty : (k : Kernel) → (thread_dequeue k).0 ≡ 0 → thread_yield k ≡ k
unfolding thread_yield
yield-empty k e = ground arith

-- A thread other than the idle thread that yields to a ready thread goes, ready, to the end of the
-- ready queue, and the first of the queue runs. With no ready thread `thread_yield` changes
-- nothing.
pub thread_yield-Queues :
    {k : Kernel} {xs ys : List Ptr}
    → k.current_thread ≢ k.idle_thread_instance
    → IsScheduled k xs ys
    → ((x : Ptr) (zs : List Ptr)
        → xs ≡ x ∷ zs
        → Queues (thread_yield k) (zs ++ k.current_thread ∷ []) ys
          × Switched k (thread_yield k) k.current_thread x ready)
      × (xs ≡ [] → thread_yield k ≡ k)
thread_yield-Queues {k} {xs} {ys} ne v = (
  λ x zs e.
      let c = k.current_thread in
      let (first, left) = thread_dequeue-cons {x = x} {xs = zs} (rw e at v.queues) in
      let apart : Absent c (x ∷ zs) = rw e at v.off_ready in
      let chain : Chain k.threads k.ready_queue_head (x ∷ zs) = rw e at v.queues.ready.chain in
      let same = thread_dequeue-SameRest k in
      let j = (thread_dequeue k).1 in
      let go = requeue-running j c (same.state c ∙ v.state) in
      let put = thread_enqueue-Enqueued j c v.current in
      rw (yield-switch_to k v.current ne (rw first chain.1), go)
        (finish c (thread_dequeue k).0 x ready
          (thread_enqueue-Queues c left v.current apart.1 v.off_done) first apart.0 put.state
          (put.saved_esp x ∙ same.saved_esp x) (put.idle ∙ same.idle)),
  λ e. yield-empty k (ap (λ t. t.0) (thread_dequeue-nil (rw e at v.queues))),
)

terminate-switch_to :
    (k : Kernel)
    → k.current_thread ≢ 0
    → k.current_thread ≢ k.bootstrap_thread
    → k.current_thread ≢ k.idle_thread_instance
    → (k.threads k.current_thread).state ≡ running
    → (next_or_idle (thread_enqueue_terminated k k.current_thread)).0 ≢ 0
    → let (n, j) = next_or_idle (thread_enqueue_terminated k k.current_thread) in
      thread_terminate k ≡ switch_to j k.current_thread n
unfolding thread_terminate
terminate-switch_to k current boot idle runs some = rw (
  ==-ne _ 0 current,
  ==-ne k.current_thread k.bootstrap_thread boot,
  ==-ne k.current_thread k.idle_thread_instance idle,
  runs,
  ==-ne _ 0 some,
)

chosen-idle :
    (j k : Kernel) (xs : List Ptr)
    → j.idle_thread_instance ≡ k.idle_thread_instance
    → chosen j xs ≡ chosen k xs
chosen-idle j k [] e = e
chosen-idle j k (x ∷ xs) e = refl

-- A thread other than the bootstrap thread and the idle thread that terminates goes, terminated, to
-- the end of the terminated queue, and the first ready thread runs, or the idle thread if there is
-- none. The other ready threads are left in their order.
pub thread_terminate-Queues :
    {k : Kernel} {xs ys : List Ptr}
    → IsScheduled k xs ys
    → k.current_thread ≢ k.idle_thread_instance
    → k.current_thread ≢ k.bootstrap_thread
    → Queues (thread_terminate k) (rest xs) (ys ++ k.current_thread ∷ [])
      × Switched k (thread_terminate k) k.current_thread (chosen k xs) terminated
thread_terminate-Queues {k} {xs} v ne boot =
    let c = k.current_thread in
    let s = thread_enqueue_terminated k c in
    let put = thread_enqueue_terminated-Enqueued k c v.current in
    let (first, left) =
      next_or_idle-Queues xs
        (thread_enqueue_terminated-Queues c v.queues v.current v.off_ready v.off_done) in
    let e : (next_or_idle s).0 ≡ chosen k xs = first ∙ chosen-idle s k xs put.idle in
    let (some, other) = chosen-ne xs v ne in
    let same = next_or_idle-SameRest s in
    rw (terminate-switch_to k v.current boot ne v.state (rw e some)) (
      finish c (next_or_idle s).0 (chosen k xs) terminated left e other (same.state c ∙ put.state)
        (same.saved_esp (chosen k xs) ∙ put.saved_esp (chosen k xs)) (same.idle ∙ put.idle))
