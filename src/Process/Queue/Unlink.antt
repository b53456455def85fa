-- ===== src/Process/Queue/Unlink.antt =====
-- Taking a thread out of the middle of the ready queue, as the loop of
-- `thread_terminate_process_threads` does.
use mathlib.Core.Path.{subst}
use mathlib.Core.List.{append-nil}
use miyar_os.Base.{
  ◌≡◌, ◌≢◌, refl, sym, ap, ◌∙◌, true, false, List, [], ◌∷◌, ◌++◌, ◌==◌, ==-ne, inl, inr, Bool-cases,
  if◌then◌else◌, arith,
}
use miyar_os.Process.Kernel.{Ptr, Thread, Kernel, set_next}
use miyar_os.Process.Thread.{unlink_ready}
use miyar_os.Process.Queue.{
  Chain, last_or, Absent, Distinct, Disjoint, IsQueue, Queues, Chain-SameBut, IsQueue-SameBut,
  Absent-ne-last, Disjoint-tail, Disjoint-head,
}
use miyar_os.Process.Queue.Enqueue.{linked}

abbrev pub head_or : List Ptr → Ptr
head_or [] = 0
head_or (x ∷ xs) = x

pub Chain-head : (f : Ptr → Thread) (p : Ptr) (xs : List Ptr) → Chain f p xs → p ≡ head_or xs
Chain-head f p [] c = c
Chain-head f p (x ∷ xs) c = c.0

last_or-append :
    (d : Ptr) (zs : List Ptr) (x : Ptr) (xs : List Ptr) → last_or d (zs ++ x ∷ xs) ≡ last_or x xs
last_or-append d [] x xs = refl
last_or-append d (z ∷ zs) x xs = last_or-append z zs x xs

Absent-remove :
    (t : Ptr) (zs : List Ptr) (x : Ptr) (xs : List Ptr)
    → Absent t (zs ++ x ∷ xs)
    → (t ≢ x) × Absent t (zs ++ xs)
Absent-remove t [] x xs a = a
Absent-remove t (z ∷ zs) x xs a = let (ne, rest) = Absent-remove t zs x xs a.1 in (ne, (a.0, rest))

Absent-prefix : (t : Ptr) (zs xs : List Ptr) → Absent t (zs ++ xs) → Absent t zs
Absent-prefix t [] xs a = tt
Absent-prefix t (z ∷ zs) xs a = (a.0, Absent-prefix t zs xs a.1)

Absent-suffix : (t : Ptr) (zs xs : List Ptr) → Absent t (zs ++ xs) → Absent t xs
Absent-suffix t [] xs a = a
Absent-suffix t (z ∷ zs) xs a = Absent-suffix t zs xs a.1

Distinct-remove :
    (zs : List Ptr) (x : Ptr) (xs : List Ptr)
    → Distinct (zs ++ x ∷ xs)
    → Absent x (zs ++ xs) × Distinct (zs ++ xs) × Absent x xs
Distinct-remove [] x xs d = (d.0, d.1, d.0)
Distinct-remove (z ∷ zs) x xs d =
    let (out, rest, after) = Distinct-remove zs x xs d.1 in
    let (ne, outz) = Absent-remove z zs x xs d.0 in ((λ e. ne (sym e), out), (outz, rest), after)

Disjoint-remove :
    (zs : List Ptr) (x : Ptr) (xs ys : List Ptr)
    → Disjoint (zs ++ x ∷ xs) ys
    → Absent x ys × Disjoint (zs ++ xs) ys
Disjoint-remove zs x xs [] d = (tt, tt)
Disjoint-remove zs x xs (y ∷ ys) d =
    let (out, rest) = Disjoint-remove zs x xs ys d.1 in
    let (ne, outy) = Absent-remove y zs x xs d.0 in ((λ e. ne (sym e), out), (outy, rest))

-- The thread before `x` now points past it.
Chain-splice :
    (f : Ptr → Thread) (p z : Ptr) (zs : List Ptr) (x : Ptr) (xs : List Ptr)
    → Chain f p (z ∷ (zs ++ x ∷ xs))
    → Distinct (z ∷ (zs ++ x ∷ xs))
    → Chain (linked f (last_or z zs) (f x).next) p (z ∷ (zs ++ xs))
Chain-splice f p z [] x xs c d =
    let here : (linked f z (f x).next z).next ≡ (f x).next = ground arith in
    (
      c.0,
      c.1,
      rw here (
          Chain-SameBut z f (linked f z (f x).next) (f x).next xs (λ u h. ground arith) d.0.1
            c.2.2),
    )
Chain-splice f p z (w ∷ ws) x xs c d =
    let apart = Absent-ne-last z w ws (Absent-prefix z (w ∷ ws) (x ∷ xs) d.0) in
    let here : linked f (last_or w ws) (f x).next z ≡ f z = ground arith in
    (c.0, c.1, rw here (Chain-splice f (f z).next w ws x xs c.2 d.1))

-- The thread behind `x`.
pub Chain-next :
    (f : Ptr → Thread) (p : Ptr) (zs : List Ptr) (x : Ptr) (xs : List Ptr)
    → Chain f p (zs ++ x ∷ xs)
    → (x ≢ 0) × ((f x).next ≡ head_or xs)
Chain-next f p [] x xs c = (c.1, Chain-head f (f x).next xs c.2)
Chain-next f p (z ∷ zs) x xs c = Chain-next f (f z).next zs x xs c.2

-- The last thread before `x` is no NULL, and in no list that the queue is disjoint from.
last-prefix-ne :
    (f : Ptr → Thread) (p z : Ptr) (zs xs : List Ptr)
    → Chain f p (z ∷ (zs ++ xs))
    → last_or z zs ≢ 0
last-prefix-ne f p z [] xs c = c.1
last-prefix-ne f p z (w ∷ ws) xs c = last-prefix-ne f (f z).next w ws xs c.2

Disjoint-last_prefix :
    (z : Ptr) (zs xs ys : List Ptr) → Disjoint (z ∷ (zs ++ xs)) ys → Absent (last_or z zs) ys
Disjoint-last_prefix z [] xs ys d = Disjoint-head z xs ys d
Disjoint-last_prefix z (w ∷ ws) xs ys d =
    Disjoint-last_prefix w ws xs ys (Disjoint-tail z (w ∷ (ws ++ xs)) ys d)

tail-removed :
    (zs : List Ptr) (x : Ptr) (xs : List Ptr) {tail : Ptr}
    → tail ≡ last_or 0 (zs ++ x ∷ xs)
    → Absent x xs
    → (if tail == x then last_or 0 zs else tail) ≡ last_or 0 (zs ++ xs)
tail-removed zs x [] {tail} e out =
    let last : tail ≡ x = e ∙ last_or-append 0 zs x [] in
    let hit : (tail == x) ≡ true = ground arith in rw hit (ap (last_or 0) (sym (append-nil zs)))
tail-removed zs x (y ∷ ys) {tail} e out =
    let last : tail ≡ last_or y ys = e ∙ last_or-append 0 zs x (y ∷ ys) in
    let ne = Absent-ne-last x y ys out in
    let miss : (tail == x) ≡ false = ==-ne tail x (λ h. ne (sym h ∙ last)) in
    rw miss (last ∙ sym (last_or-append 0 zs y ys))

with_tail :
    (l : Kernel) (previous x : Ptr) (xs ys : List Ptr)
    → IsQueue l.threads l.ready_queue_head
        (if l.ready_queue_tail == x then previous else l.ready_queue_tail)
        xs
    → IsQueue l.threads l.terminated_queue_head l.terminated_queue_tail ys
    → Disjoint xs ys
    → Queues (if l.ready_queue_tail == x then record l { ready_queue_tail = previous } else l) xs ys
with_tail l previous x xs ys q done apart = elim (Bool-cases (l.ready_queue_tail == x)) [
  | inl hit ↦ rw hit (record { ready = rw hit at q; done = done; apart = apart })
  | inr miss ↦ rw miss (record { ready = rw miss at q; done = done; apart = apart })
]

-- Neither queue holds a thread that has been taken out.
pub removed-Absent :
    {k : Kernel} (zs : List Ptr) (x : Ptr) (xs ys : List Ptr)
    → Queues k (zs ++ x ∷ xs) ys
    → Absent x (zs ++ xs) × Absent x ys
removed-Absent zs x xs ys q =
    ((Distinct-remove zs x xs q.ready.distinct).0, (Disjoint-remove zs x xs ys q.apart).0)

pub unlink_ready-Queues :
    {k : Kernel} (zs : List Ptr) (x : Ptr) (xs ys : List Ptr)
    → Queues k (zs ++ x ∷ xs) ys
    → Queues (unlink_ready k (last_or 0 zs) x (head_or xs)) (zs ++ xs) ys
unfolding unlink_ready
unlink_ready-Queues {k} [] x xs ys q =
    let next = Chain-next k.threads k.ready_queue_head [] x xs q.ready.chain in
    with_tail (record k { ready_queue_head = head_or xs }) 0 x xs ys
      (record {
        chain = rw (sym next.1) q.ready.chain.2;
        last = tail-removed [] x xs q.ready.last q.ready.distinct.0;
        distinct = q.ready.distinct.1;
      })
      q.done (Disjoint-tail x xs ys q.apart)
unlink_ready-Queues {k} (z ∷ zs) x xs ys q =
    let next = Chain-next k.threads k.ready_queue_head (z ∷ zs) x xs q.ready.chain in
    let (out, distinct, after) = Distinct-remove (z ∷ zs) x xs q.ready.distinct in
    let some =
      ==-ne (last_or z zs) 0
        (last-prefix-ne k.threads k.ready_queue_head z zs (x ∷ xs) q.ready.chain) in
    rw some (
      with_tail (set_next k (last_or z zs) (head_or xs)) (last_or z zs) x (z ∷ (zs ++ xs)) ys
        (record {
          chain =
              subst
                (λ n. Chain (linked k.threads (last_or z zs) n) k.ready_queue_head (z ∷ (zs ++ xs)))
                next.1
                (Chain-splice k.threads k.ready_queue_head z zs x xs q.ready.chain
                  q.ready.distinct);
          last = tail-removed (z ∷ zs) x xs q.ready.last after;
          distinct = distinct;
        })
        (IsQueue-SameBut (last_or z zs) (λ u h. ground arith)
          (Disjoint-last_prefix z zs (x ∷ xs) ys q.apart) q.done)
        (Disjoint-remove (z ∷ zs) x xs ys q.apart).1)
