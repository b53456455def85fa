-- ===== src/Process/Queue.antt =====
-- What the linked queues of thread.c stand for: a list of distinct threads, each with the next one
-- in its `next` field, between the head and the tail pointers.
pub mod Enqueue
pub mod Dequeue
pub mod Unlink
pub mod Remove
pub mod Reap
use miyar_os.Base.{ℕ, ◌≡◌, ◌≢◌, refl, sym, List, [], ◌∷◌, ◌++◌, ◌==◌, if◌then◌else◌, update, arith}
use miyar_os.Process.Kernel.{Ptr, Thread, Kernel}

-- Following `next` from `p` leads through the threads of the list to NULL.
abbrev pub Chain : (Ptr → Thread) → Ptr → List Ptr → Type 0
Chain f p [] = p ≡ 0
Chain f p (x ∷ xs) = (p ≡ x) × (x ≢ 0) × Chain f (f x).next xs

abbrev pub last_or : Ptr → List Ptr → Ptr
last_or d [] = d
last_or d (x ∷ xs) = last_or x xs

abbrev pub Absent : Ptr → List Ptr → Type 0
Absent t [] = Unit
Absent t (x ∷ xs) = (t ≢ x) × Absent t xs

abbrev pub Distinct : List Ptr → Type 0
Distinct [] = Unit
Distinct (x ∷ xs) = Absent x xs × Distinct xs

-- No thread of the second list is in the first.
abbrev pub Disjoint : List Ptr → List Ptr → Type 0
Disjoint xs [] = Unit
Disjoint xs (y ∷ ys) = Absent y xs × Disjoint xs ys

pub record IsQueue (f : Ptr → Thread) (head tail : Ptr) (xs : List Ptr) : Type 0 where
  pub chain : Chain f head xs
  pub last : tail ≡ last_or 0 xs
  pub distinct : Distinct xs

-- The ready queue and the terminated queue of the kernel.
pub record Queues (k : Kernel) (xs ys : List Ptr) : Type 0 where
  pub ready : IsQueue k.threads k.ready_queue_head k.ready_queue_tail xs
  pub done : IsQueue k.threads k.terminated_queue_head k.terminated_queue_tail ys
  pub apart : Disjoint xs ys

-- Two stores that agree outside of one thread.
abbrev pub SameBut : Ptr → (Ptr → Thread) → (Ptr → Thread) → Type 0
SameBut t f g = (u : Ptr) → u ≢ t → g u ≡ f u

pub Chain-SameBut :
    (t : Ptr) (f g : Ptr → Thread) (p : Ptr) (xs : List Ptr)
    → SameBut t f g
    → Absent t xs
    → Chain f p xs
    → Chain g p xs
Chain-SameBut t f g p [] same out c = c
Chain-SameBut t f g p (x ∷ xs) same out c =
    let here : g x ≡ f x = same x (λ e. out.0 (sym e)) in
    (c.0, c.1, rw here (Chain-SameBut t f g (f x).next xs same out.1 c.2))

pub IsQueue-SameBut :
    (t : Ptr) {f g : Ptr → Thread} {head tail : Ptr} {xs : List Ptr}
    → SameBut t f g
    → Absent t xs
    → IsQueue f head tail xs
    → IsQueue g head tail xs
IsQueue-SameBut t {f} {g} {head} {xs} same out q = record {
  chain = Chain-SameBut t f g head xs same out q.chain;
  last = q.last;
  distinct = q.distinct;
}

pub Absent-ne-last : (t x : Ptr) (xs : List Ptr) → Absent t (x ∷ xs) → t ≢ last_or x xs
Absent-ne-last t x [] out = out.0
Absent-ne-last t x (y ∷ ys) out = Absent-ne-last t y ys out.1

pub Chain-last-ne :
    (f : Ptr → Thread) (p x : Ptr) (xs : List Ptr) → Chain f p (x ∷ xs) → last_or x xs ≢ 0
Chain-last-ne f p x [] c = c.1
Chain-last-ne f p x (y ∷ ys) c = Chain-last-ne f (f x).next y ys c.2

pub Absent-append : (t : Ptr) (xs ys : List Ptr) → Absent t xs → Absent t ys → Absent t (xs ++ ys)
Absent-append t [] ys a b = b
Absent-append t (x ∷ xs) ys a b = (a.0, Absent-append t xs ys a.1 b)

pub Distinct-snoc : (xs : List Ptr) (t : Ptr) → Distinct xs → Absent t xs → Distinct (xs ++ t ∷ [])
Distinct-snoc [] t d a = (tt, tt)
Distinct-snoc (x ∷ xs) t d a =
    (Absent-append x xs (t ∷ []) d.0 (λ e. a.0 (sym e), tt), Distinct-snoc xs t d.1 a.1)

pub last_or-snoc : (d : Ptr) (xs : List Ptr) (t : Ptr) → last_or d (xs ++ t ∷ []) ≡ t
last_or-snoc d [] t = refl
last_or-snoc d (x ∷ xs) t = last_or-snoc x xs t

pub Disjoint-snoc :
    (xs ys : List Ptr) (t : Ptr) → Disjoint xs ys → Absent t ys → Disjoint (xs ++ t ∷ []) ys
Disjoint-snoc xs [] t d a = tt
Disjoint-snoc xs (y ∷ ys) t d a =
    (Absent-append y xs (t ∷ []) d.0 (λ e. a.0 (sym e), tt), Disjoint-snoc xs ys t d.1 a.1)

pub Disjoint-append :
    (xs ys : List Ptr) (t : Ptr) → Disjoint xs ys → Absent t xs → Disjoint xs (ys ++ t ∷ [])
Disjoint-append xs [] t d a = (a, tt)
Disjoint-append xs (y ∷ ys) t d a = (d.0, Disjoint-append xs ys t d.1 a)

pub Disjoint-tail : (x : Ptr) (xs ys : List Ptr) → Disjoint (x ∷ xs) ys → Disjoint xs ys
Disjoint-tail x xs [] d = tt
Disjoint-tail x xs (y ∷ ys) d = (d.0.1, Disjoint-tail x xs ys d.1)

pub Disjoint-head : (x : Ptr) (xs ys : List Ptr) → Disjoint (x ∷ xs) ys → Absent x ys
Disjoint-head x xs [] d = tt
Disjoint-head x xs (y ∷ ys) d = (λ e. d.0.0 (sym e), Disjoint-head x xs ys d.1)

pub Disjoint-last : (x : Ptr) (xs ys : List Ptr) → Disjoint (x ∷ xs) ys → Absent (last_or x xs) ys
Disjoint-last x [] ys d = Disjoint-head x [] ys d
Disjoint-last x (z ∷ zs) ys d = Disjoint-last z zs ys (Disjoint-tail x (z ∷ zs) ys d)

pub Disjoint-last_right :
    (xs : List Ptr) (y : Ptr) (ys : List Ptr) → Disjoint xs (y ∷ ys) → Absent (last_or y ys) xs
Disjoint-last_right xs y [] d = d.0
Disjoint-last_right xs y (z ∷ zs) d = Disjoint-last_right xs z zs d.1
