-- ===== src/Process/Queue/Enqueue.antt =====
-- `thread_enqueue` and `thread_enqueue_terminated` append to their queue.
use mathlib.Core.Path.{subst}
use miyar_os.Base.{
  ◌≡◌, ◌≢◌, refl, sym, ◌∙◌, List, [], ◌∷◌, ◌++◌, ◌==◌, ==-ne, inl, inr, Bool-cases, update, arith,
}
use miyar_os.Process.Kernel.{Ptr, Thread, ready, terminated, Kernel, set_next, set_state}
use miyar_os.Process.Thread.{thread_enqueue, thread_enqueue_terminated}
use miyar_os.Process.Queue.{
  Chain, last_or, Absent, Distinct, Disjoint, IsQueue, Queues, SameBut, Chain-SameBut,
  IsQueue-SameBut, Absent-ne-last, Chain-last-ne, Distinct-snoc, last_or-snoc, Disjoint-snoc,
  Disjoint-append, Disjoint-last, Disjoint-last_right,
}

-- The store in which `l` points to `t`.
abbrev pub linked : (Ptr → Thread) → (l t : Ptr) → Ptr → Thread
linked g l t = update g l (record (g l) { next = t })

Chain-snoc :
    (g : Ptr → Thread) (p x : Ptr) (xs : List Ptr) (t : Ptr)
    → Chain g p (x ∷ xs)
    → Distinct (x ∷ xs)
    → Absent t (x ∷ xs)
    → t ≢ 0
    → (g t).next ≡ 0
    → Chain (linked g (last_or x xs) t) p (x ∷ (xs ++ t ∷ []))
Chain-snoc g p x [] t c d out ne end = (c.0, c.1, (ground arith, ne, ground arith))
Chain-snoc g p x (y ∷ ys) t c d out ne end =
    let apart = Absent-ne-last x y ys d.0 in
    let here : linked g (last_or y ys) t x ≡ g x = ground arith in
    (c.0, c.1, rw here (Chain-snoc g (g x).next y ys t c.2 d.1 out.1 ne end))

-- Appending `t`, whose `next` is NULL in the store `g`, to a queue.
module _ (t : Ptr) {f g : Ptr → Thread} (same : SameBut t f g) (ne : t ≢ 0)
    (end : (g t).next ≡ 0) where
  pub push-first :
      {head tail : Ptr} {xs : List Ptr}
      → IsQueue f head tail xs
      → tail ≡ 0
      → IsQueue g t t (xs ++ t ∷ [])
  push-first {xs = []} q empty = record {
    chain = (refl, ne, end);
    last = refl;
    distinct = (tt, tt);
  }
  push-first {head} {tail} {xs = x ∷ xs} q empty =
      absurd (Chain-last-ne f head x xs q.chain (sym q.last ∙ empty))

  pub push-last :
      {head tail : Ptr} {xs : List Ptr}
      → IsQueue f head tail xs
      → Absent t xs
      → tail ≢ 0
      → IsQueue (linked g tail t) head t (xs ++ t ∷ [])
  push-last {xs = []} q out some = absurd (some q.last)
  push-last {head} {tail} {xs = x ∷ xs} q out some = record {
    chain =
        subst (λ l. Chain (linked g l t) head (x ∷ (xs ++ t ∷ []))) (sym q.last)
          (Chain-snoc g head x xs t (Chain-SameBut t f g head (x ∷ xs) same out q.chain) q.distinct
            out ne end);
    last = sym (last_or-snoc x xs t);
    distinct = Distinct-snoc (x ∷ xs) t q.distinct out;
  }

-- The tail of one queue is in the other queue's way neither.
last-Absent :
    {f : Ptr → Thread} {head tail : Ptr} (xs ys : List Ptr)
    → IsQueue f head tail xs
    → Disjoint xs ys
    → tail ≢ 0
    → Absent tail ys
last-Absent [] ys q d some = absurd (some q.last)
last-Absent (x ∷ xs) ys q d some = rw q.last (Disjoint-last x xs ys d)

last-Absent_right :
    {f : Ptr → Thread} {head tail : Ptr} (xs ys : List Ptr)
    → IsQueue f head tail ys
    → Disjoint xs ys
    → tail ≢ 0
    → Absent tail xs
last-Absent_right xs [] q d some = absurd (some q.last)
last-Absent_right xs (y ∷ ys) q d some = rw q.last (Disjoint-last_right xs y ys d)

module _ {k : Kernel} {xs ys : List Ptr} (t : Ptr) (q : Queues k xs ys) (ne : t ≢ 0)
    (out : Absent t xs) (apart : Absent t ys) where
  -- A thread of neither queue that is enqueued goes to the end of the ready queue, and the
  -- terminated queue is as before.
  pub thread_enqueue-Queues : Queues (thread_enqueue k t) (xs ++ t ∷ []) ys
  unfolding thread_enqueue
  thread_enqueue-Queues = elim (Bool-cases (k.ready_queue_tail == 0)) [
    | inl empty ↦
        rw (==-ne t 0 ne, empty)
          (record {
            ready = push-first t same ne (ground arith) q.ready (ground arith);
            done = IsQueue-SameBut t same apart q.done;
            apart = Disjoint-snoc xs ys t q.apart apart;
          })
    | inr some ↦
        let tail : k.ready_queue_tail ≢ 0 = ground arith in
        rw (==-ne t 0 ne, some)
          (record {
            ready = push-last t same ne (ground arith) q.ready out tail;
            done =
                IsQueue-SameBut k.ready_queue_tail (λ u h. ground arith)
                  (last-Absent xs ys q.ready q.apart tail) (IsQueue-SameBut t same apart q.done);
            apart = Disjoint-snoc xs ys t q.apart apart;
          })
  ]
    where
      same : SameBut t k.threads (set_state (set_next k t 0) t ready).threads
      same u h = ground arith

  -- So with the terminated queue and the ready queue.
  pub thread_enqueue_terminated-Queues : Queues (thread_enqueue_terminated k t) xs (ys ++ t ∷ [])
  unfolding thread_enqueue_terminated
  thread_enqueue_terminated-Queues = elim (Bool-cases (k.terminated_queue_tail == 0)) [
    | inl empty ↦
        rw (==-ne t 0 ne, empty)
          (record {
            ready = IsQueue-SameBut t same out q.ready;
            done = push-first t same ne (ground arith) q.done (ground arith);
            apart = Disjoint-append xs ys t q.apart out;
          })
    | inr some ↦
        let tail : k.terminated_queue_tail ≢ 0 = ground arith in
        rw (==-ne t 0 ne, some)
          (record {
            ready =
                IsQueue-SameBut k.terminated_queue_tail (λ u h. ground arith)
                  (last-Absent_right xs ys q.done q.apart tail)
                  (IsQueue-SameBut t same out q.ready);
            done = push-last t same ne (ground arith) q.done apart tail;
            apart = Disjoint-append xs ys t q.apart out;
          })
  ]
    where
      same : SameBut t k.threads (set_next (set_state k t terminated) t 0).threads
      same u h = ground arith
