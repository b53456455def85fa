-- ===== src/Process/Queue/Reap.antt =====
-- `thread_reap_terminated`: which threads leave the terminated queue.
use mathlib.Core.List.{append_assoc}
use miyar_os.Base.{
  ℕ, zero, suc, ◌<◌, ◌≡◌, ◌≢◌, refl, sym, ap, ◌∙◌, true, false, not, ◌&&◌, ltb, some, List, [], ◌∷◌,
  ◌++◌, ◌==◌, ==-ne, inl, inr, Bool-cases, if◌then◌else◌, length, arith,
}
use miyar_os.Process.Kernel.{Ptr, Kernel, set_next, kfree}
use miyar_os.Process.Thread.{
  unlink_ready, unlink_terminated, uncount, free_stack, reap_thread, reap_loop,
  thread_reap_terminated,
}
use miyar_os.Process.Queue.{
  last_or, Absent, Disjoint, Queues, IsQueue-SameBut, last_or-snoc, Disjoint-head, Disjoint-tail,
}
use miyar_os.Process.Queue.Unlink.{
  head_or, Chain-next, Chain-head, removed-Absent, unlink_ready-Queues,
}
use miyar_os.Process.Switch.Rotate.{SameLinks, Queues-SameLinks}

-- The kernel with its two queues exchanged.
abbrev mirror : Kernel → Kernel
mirror k = record k {
  ready_queue_head = k.terminated_queue_head;
  ready_queue_tail = k.terminated_queue_tail;
  terminated_queue_head = k.ready_queue_head;
  terminated_queue_tail = k.ready_queue_tail;
}

Disjoint-sym : (xs ys : List Ptr) → Disjoint xs ys → Disjoint ys xs
Disjoint-sym [] ys d = tt
Disjoint-sym (x ∷ xs) ys d = (Disjoint-head x xs ys d, Disjoint-sym xs ys (Disjoint-tail x xs ys d))

mirror-Queues : {k : Kernel} (xs ys : List Ptr) → Queues k xs ys → Queues (mirror k) ys xs
mirror-Queues xs ys q = record {
  ready = q.done;
  done = q.ready;
  apart = Disjoint-sym xs ys q.apart;
}

unlink-mirror :
    (k : Kernel) (previous t next : Ptr)
    → unlink_terminated k previous t next ≡ mirror (unlink_ready (mirror k) previous t next)
unfolding unlink_terminated unlink_ready
unlink-mirror k previous t next = elim (Bool-cases (previous == 0)) [
  | inl first ↦ elim (Bool-cases (k.terminated_queue_tail == t)) [
    | inl last ↦ rw (first, last)
    | inr inner ↦ rw (first, inner)
  ]
  | inr later ↦ elim (Bool-cases (k.terminated_queue_tail == t)) [
    | inl last ↦ rw (later, last)
    | inr inner ↦ rw (later, inner)
  ]
]

unlink_terminated-Queues :
    {k : Kernel} (xs zs : List Ptr) (y : Ptr) (ys : List Ptr)
    → Queues k xs (zs ++ y ∷ ys)
    → Queues (unlink_terminated k (last_or 0 zs) y (head_or ys)) xs (zs ++ ys)
unlink_terminated-Queues {k} xs zs y ys q = rw (unlink-mirror k (last_or 0 zs) y (head_or ys)) (
    mirror-Queues (zs ++ ys) xs
      (unlink_ready-Queues zs y ys xs (mirror-Queues xs (zs ++ y ∷ ys) q)))

-- A thread in no queue whose link is cleared.
set_next-Queues :
    {k : Kernel} (t n : Ptr) (xs ys : List Ptr)
    → Absent t xs
    → Absent t ys
    → Queues k xs ys
    → Queues (set_next k t n) xs ys
set_next-Queues t n xs ys off_xs off_ys q = record {
  ready = IsQueue-SameBut t (λ u h. ground arith) off_xs q.ready;
  done = IsQueue-SameBut t (λ u h. ground arith) off_ys q.done;
  apart = q.apart;
}

uncount-SameLinks : (k : Kernel) (t : Ptr) → SameLinks k (uncount k t)
unfolding uncount
uncount-SameLinks k t =
    elim (Bool-cases (
      not ((k.threads t).process == 0) && ltb 0 (k.processes (k.threads t).process).thread_count)) [
        | inl counted ↦ rw counted (record {
          next = λ u. refl;
          ready_head = refl;
          ready_tail = refl;
          done_head = refl;
          done_tail = refl;
        })
        | inr alone ↦ rw alone (record {
          next = λ u. refl;
          ready_head = refl;
          ready_tail = refl;
          done_head = refl;
          done_tail = refl;
        })
      ]

free_stack-SameLinks : (k : Kernel) (t : Ptr) → SameLinks k (free_stack k t)
unfolding free_stack
free_stack-SameLinks k t = elim (Bool-cases ((k.threads t).kernel_stack == 0)) [
  | inl bare ↦ rw bare (record {
    next = λ u. refl;
    ready_head = refl;
    ready_tail = refl;
    done_head = refl;
    done_tail = refl;
  })
  | inr stacked ↦ rw stacked (record {
    next = λ u. refl;
    ready_head = refl;
    ready_tail = refl;
    done_head = refl;
    done_tail = refl;
  })
]

-- Giving a thread's memory back leaves the queues alone.
given_back-Queues :
    {k : Kernel} (t : Ptr) (xs ys : List Ptr)
    → Queues k xs ys
    → Queues (kfree (free_stack (uncount k t) t) t) xs ys
given_back-Queues {k} t xs ys q =
    let l = free_stack (uncount k t) t in
    Queues-SameLinks {k = l} {j = kfree l t}
      (record {
        next = λ u. refl;
        ready_head = refl;
        ready_tail = refl;
        done_head = refl;
        done_tail = refl;
      })
      (Queues-SameLinks (free_stack-SameLinks (uncount k t) t)
        (Queues-SameLinks (uncount-SameLinks k t) q))

reap_thread-Queues :
    {k : Kernel} (xs zs : List Ptr) (y : Ptr) (ys : List Ptr)
    → Queues k xs (zs ++ y ∷ ys)
    → Queues (reap_thread k (last_or 0 zs) y (head_or ys)) xs (zs ++ ys)
unfolding reap_thread
reap_thread-Queues {k} xs zs y ys q =
    let (off_zs, off_xs) = removed-Absent zs y ys xs (mirror-Queues xs (zs ++ y ∷ ys) q) in
    given_back-Queues y xs (zs ++ ys)
      (set_next-Queues y 0 xs (zs ++ ys) off_xs off_zs (unlink_terminated-Queues xs zs y ys q))

-- The threads that stay: `current`, if it is in the queue.
abbrev pub kept : (current : Ptr) → List Ptr → List Ptr
kept current [] = []
kept current (y ∷ ys) = if y == current then y ∷ kept current ys else kept current ys

module _ (fuel : ℕ) (k : Kernel) (current previous y n : Ptr) (ne : y ≢ 0)
    (next : (k.threads y).next ≡ n) where
  reap_loop-goes :
      y == current ≡ false
      → reap_loop (suc fuel) k current previous y
        ≡ reap_loop fuel (reap_thread k previous y n) current previous n
  unfolding reap_loop
  reap_loop-goes other = rw (==-ne y 0 ne, other, next)

  reap_loop-stays :
      y == current ≡ true → reap_loop (suc fuel) k current previous y ≡ reap_loop fuel k current y n
  unfolding reap_loop
  reap_loop-stays is = rw (==-ne y 0 ne, is, next)

reap_loop-Queues :
    (fuel : ℕ) {k : Kernel} (current : Ptr) (xs zs ys : List Ptr)
    → Queues k xs (zs ++ ys)
    → length ys < fuel
    → (j : Kernel) × (reap_loop fuel k current (last_or 0 zs) (head_or ys) ≡ some j)
      × Queues j xs (zs ++ kept current ys)
unfolding reap_loop
reap_loop-Queues zero current xs zs ys q lt = absurd (omega (arith, lt))
reap_loop-Queues (suc fuel) {k} current xs zs [] q lt = (k, refl, q)
reap_loop-Queues (suc fuel) {k} current xs zs (y ∷ ys) q lt =
    let (ne, next) = Chain-next k.threads k.terminated_queue_head zs y ys q.done.chain in
    elim (Bool-cases (y == current)) [
      | inr other ↦
          let (j, e, r) =
            reap_loop-Queues fuel current xs zs ys (reap_thread-Queues xs zs y ys q)
              (omega (arith, lt)) in
          (
            j,
            reap_loop-goes fuel k current (last_or 0 zs) y (head_or ys) ne next other ∙ e,
            rw other r,
          )
      | inl is ↦
          let q' : Queues k xs ((zs ++ y ∷ []) ++ ys) = rw append_assoc q in
          let (j, e, r) =
            reap_loop-Queues fuel current xs (zs ++ y ∷ []) ys q' (omega (arith, lt)) in
          (
            j,
            reap_loop-stays fuel k current (last_or 0 zs) y (head_or ys) ne next is
                ∙ ap (λ p. reap_loop fuel k current p (head_or ys)) (sym (last_or-snoc 0 zs y))
                ∙ e,
            rw is (rw append_assoc at r),
          )
    ]

-- With fuel above the length of the terminated queue, `thread_reap_terminated` ends. Of the
-- terminated queue only the thread that is passed stays, if it is there, and the ready queue is as
-- it was.
pub thread_reap_terminated-Queues :
    (fuel : ℕ) {k : Kernel} {xs ys : List Ptr} (current : Ptr)
    → Queues k xs ys
    → length ys < fuel
    → (j : Kernel) × (thread_reap_terminated fuel k current ≡ some j)
      × Queues j xs (kept current ys)
unfolding thread_reap_terminated
thread_reap_terminated-Queues fuel {k} {xs} {ys} current q lt =
    let (j, e, r) = reap_loop-Queues fuel current xs [] ys q lt in
    let head = Chain-head k.threads k.terminated_queue_head ys q.done.chain in
    (j, ap (reap_loop fuel k current 0) head ∙ e, r)
