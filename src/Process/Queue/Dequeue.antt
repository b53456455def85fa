-- ===== src/Process/Queue/Dequeue.antt =====
-- `thread_dequeue` takes the first thread of the ready queue.
use mathlib.Core.Path.{subst}
use miyar_os.Base.{◌≡◌, ◌≢◌, sym, false, List, [], ◌∷◌, ◌==◌, ==-ne, if◌then◌else◌, arith}
use miyar_os.Process.Kernel.{Ptr, Thread, Kernel, set_next}
use miyar_os.Process.Thread.{thread_dequeue}
use miyar_os.Process.Queue.{
  IsQueue, Queues, SameBut, Chain-SameBut, IsQueue-SameBut, Disjoint-tail, Disjoint-head,
}

-- An empty ready queue gives NULL, and nothing changes.
pub thread_dequeue-nil : {k : Kernel} {ys : List Ptr} → Queues k [] ys → thread_dequeue k ≡ (0, k)
unfolding thread_dequeue
thread_dequeue-nil q = rw q.ready.chain

-- The queue without its head, whose `next` is cleared.
pop-IsQueue :
    {f g : Ptr → Thread} {head tail x : Ptr} (xs : List Ptr)
    → IsQueue f head tail (x ∷ xs)
    → SameBut x f g
    → IsQueue g (f x).next (if (f x).next == 0 then 0 else tail) xs
pop-IsQueue {f} {x} [] q same =
    let end : (f x).next ≡ 0 = q.chain.2 in record { chain = end; last = rw end; distinct = tt }
pop-IsQueue {f} {g} {x} (y ∷ ys) q same =
    let more : (f x).next ≢ 0 = ground (arith, q.chain.2.0, q.chain.2.1) in
    record {
      chain = Chain-SameBut x f g (f x).next (y ∷ ys) same q.distinct.0 q.chain.2;
      last = rw (==-ne (f x).next 0 more) q.last;
      distinct = q.distinct.1;
    }

-- Otherwise the first thread is returned, the others are left in their order, and the terminated
-- queue is as before.
pub thread_dequeue-cons :
    {k : Kernel} {x : Ptr} {xs ys : List Ptr}
    → Queues k (x ∷ xs) ys
    → ((thread_dequeue k).0 ≡ x) × Queues (thread_dequeue k).1 xs ys
unfolding thread_dequeue
thread_dequeue-cons {k} {x} {xs} {ys} q =
    let head : k.ready_queue_head ≡ x = q.ready.chain.0 in
    let some : (k.ready_queue_head == 0) ≡ false =
      ==-ne k.ready_queue_head 0 (rw head q.ready.chain.1) in
    rw some (
      head,
      record {
        ready =
            subst
              (λ h.
                SameBut h k.threads (set_next k h 0).threads
                → IsQueue (set_next k h 0).threads (k.threads h).next
                    (if (k.threads h).next == 0 then 0 else k.ready_queue_tail) xs)
              (sym head) (pop-IsQueue xs q.ready) (λ u h. ground arith);
        done =
            IsQueue-SameBut k.ready_queue_head (λ u h. ground arith)
              (rw head (Disjoint-head x xs ys q.apart)) q.done;
        apart = Disjoint-tail x xs ys q.apart;
      },
    )
