-- ===== src/Process/Switch/Rotate.antt =====
-- Where `thread_yield`, `thread_block` and `thread_terminate` leave the queues and the threads.
use miyar_os.Base.{◌+◌, ◌%◌, ◌^◌, ◌≡◌, ◌≢◌, refl, false, List, [], ◌∷◌, ◌==◌, ==-ne, arith}
use miyar_os.Process.Kernel.{Ptr, Thread, ThreadState, running, Kernel, set_state}
use miyar_os.Process.Thread.{frame_size, thread_dequeue}
use miyar_os.Process.Switch.{context_switch, enter_process, switch_to, next_or_idle}
use miyar_os.Process.Queue.{Chain, Absent, IsQueue, Queues}
use miyar_os.Process.Queue.Dequeue.{thread_dequeue-nil, thread_dequeue-cons}

-- Two stores with the same links.
abbrev pub SameNext : (Ptr → Thread) → (Ptr → Thread) → Type 0
SameNext f g = (u : Ptr) → (g u).next ≡ (f u).next

Chain-SameNext :
    (f g : Ptr → Thread) (p : Ptr) (xs : List Ptr) → SameNext f g → Chain f p xs → Chain g p xs
Chain-SameNext f g p [] same c = c
Chain-SameNext f g p (x ∷ xs) same c =
    (c.0, c.1, rw (same x) (Chain-SameNext f g (f x).next xs same c.2))

pub IsQueue-SameNext :
    {f g : Ptr → Thread} {head tail : Ptr} {xs : List Ptr}
    → SameNext f g
    → IsQueue f head tail xs
    → IsQueue g head tail xs
IsQueue-SameNext {f} {g} {head} {xs} same q = record {
  chain = Chain-SameNext f g head xs same q.chain;
  last = q.last;
  distinct = q.distinct;
}

-- The current thread runs, it and the idle thread are in no queue, and there is an idle thread.
pub record IsScheduled (k : Kernel) (xs ys : List Ptr) : Type 0 where
  pub queues : Queues k xs ys
  pub current : k.current_thread ≢ 0
  pub state : (k.threads k.current_thread).state ≡ running
  pub off_ready : Absent k.current_thread xs
  pub off_done : Absent k.current_thread ys
  pub idle : k.idle_thread_instance ≢ 0
  pub idle_ready : Absent k.idle_thread_instance xs
  pub idle_done : Absent k.idle_thread_instance ys

-- `n` has taken the processor from `c`, which is left in state `s`.
pub record Switched (k j : Kernel) (c n : Ptr) (s : ThreadState) : Type 0 where
  pub current : j.current_thread ≡ n
  pub runs : (j.threads n).state ≡ running
  pub left : (j.threads c).state ≡ s
  pub esp : j.esp ≡ ((k.threads n).saved_esp + frame_size) % 2 ^ 32
  pub idle : j.idle_thread_instance ≡ k.idle_thread_instance

-- Two kernels with the same queues.
pub record SameLinks (k j : Kernel) : Type 0 where
  pub next : SameNext k.threads j.threads
  pub ready_head : j.ready_queue_head ≡ k.ready_queue_head
  pub ready_tail : j.ready_queue_tail ≡ k.ready_queue_tail
  pub done_head : j.terminated_queue_head ≡ k.terminated_queue_head
  pub done_tail : j.terminated_queue_tail ≡ k.terminated_queue_tail

pub Queues-SameLinks :
    {k j : Kernel} {xs ys : List Ptr} → SameLinks k j → Queues k xs ys → Queues j xs ys
Queues-SameLinks l q = record {
  ready = rw (l.ready_head, l.ready_tail) (IsQueue-SameNext l.next q.ready);
  done = rw (l.done_head, l.done_tail) (IsQueue-SameNext l.next q.done);
  apart = q.apart;
}

pub switch_to-SameLinks : (k : Kernel) (c n : Ptr) → SameLinks k (switch_to k c n)
unfolding switch_to enter_process context_switch
switch_to-SameLinks k c n = record {
  next = λ u. ground arith;
  ready_head = ground arith;
  ready_tail = ground arith;
  done_head = ground arith;
  done_tail = ground arith;
}

pub switch_to-Switched :
    (k : Kernel) (c n : Ptr) (s : ThreadState)
    → c ≢ n
    → (k.threads c).state ≡ s
    → Switched k (switch_to k c n) c n s
unfolding switch_to enter_process context_switch
switch_to-Switched k c n s ne left = ground arith

pub set_state-SameLinks : (k : Kernel) (t : Ptr) (s : ThreadState) → SameLinks k (set_state k t s)
set_state-SameLinks k t s = record {
  next = λ u. ground arith;
  ready_head = refl;
  ready_tail = refl;
  done_head = refl;
  done_tail = refl;
}

-- What taking the next thread leaves alone.
pub record SameRest (k j : Kernel) : Type 0 where
  pub state : (u : Ptr) → (j.threads u).state ≡ (k.threads u).state
  pub saved_esp : (u : Ptr) → (j.threads u).saved_esp ≡ (k.threads u).saved_esp
  pub current : j.current_thread ≡ k.current_thread
  pub idle : j.idle_thread_instance ≡ k.idle_thread_instance
  pub bootstrap : j.bootstrap_thread ≡ k.bootstrap_thread

pub thread_dequeue-SameRest : (k : Kernel) → SameRest k (thread_dequeue k).1
unfolding thread_dequeue
thread_dequeue-SameRest k = record {
  state = λ u. ground arith;
  saved_esp = λ u. ground arith;
  current = ground arith;
  idle = ground arith;
  bootstrap = ground arith;
}

pub next_or_idle-SameRest : (k : Kernel) → SameRest k (next_or_idle k).1
unfolding next_or_idle thread_dequeue
next_or_idle-SameRest k = record {
  state = λ u. ground arith;
  saved_esp = λ u. ground arith;
  current = ground arith;
  idle = ground arith;
  bootstrap = ground arith;
}

-- The thread that runs next, and the queue that is left.
abbrev pub chosen : Kernel → List Ptr → Ptr
chosen k [] = k.idle_thread_instance
chosen k (x ∷ xs) = x

abbrev pub rest : List Ptr → List Ptr
rest [] = []
rest (x ∷ xs) = xs

pub next_or_idle-Queues :
    {k : Kernel} (xs : List Ptr) {ys : List Ptr}
    → Queues k xs ys
    → ((next_or_idle k).0 ≡ chosen k xs) × Queues (next_or_idle k).1 (rest xs) ys
unfolding next_or_idle
next_or_idle-Queues {k} [] q = rw (thread_dequeue-nil q) (refl, q)
next_or_idle-Queues {k} (x ∷ xs) q =
    let (first, left) = thread_dequeue-cons q in
    let some : ((thread_dequeue k).0 == 0) ≡ false = ==-ne _ 0 (rw first q.ready.chain.1) in
    rw some (first, left)
