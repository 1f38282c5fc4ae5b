-- ===== src/Master/JobQueue/Heap.antt =====
-- The order of the job heap: JobComparatorPriority is a strict order, and the heap functions keep
-- the jobs sorted by it.
use prun.Base.{ℕ, ◌≡◌, refl, sym, ◌∙◌, Bool, true, false, ◌||◌, List, [], ◌∷◌, All, ◌==◌, arith}
use prun.Master.JobStore.{Job, comparator, behind, push_heap, make_heap, update, is_in}

comparator_trans :
    (a b c : Job) → comparator a b ≡ true → comparator b c ≡ true → comparator a c ≡ true
unfolding comparator
comparator_trans a b c h k = ground arith

comparator_asymm : (a b : Job) → comparator a b ≡ true → comparator b a ≡ false
unfolding comparator
comparator_asymm a b h = ground arith

comparator_negative :
    (a b c : Job) → comparator a b ≡ false → comparator b c ≡ false → comparator a c ≡ false
unfolding comparator
comparator_negative a b c h k = ground arith

-- Nothing in the list is ordered before something that stands further back.
abbrev pub IsHeap : (ℕ → Job) → List ℕ → Type 0
IsHeap f [] = Unit
IsHeap f (x ∷ l) = All (λ y. behind f x y ≡ false) l × IsHeap f l

module _ (f : ℕ → Job) where
  All-behind_trans :
      (x y : ℕ) (l : List ℕ)
      → behind f x y ≡ false
      → All (λ z. behind f y z ≡ false) l
      → All (λ z. behind f x z ≡ false) l
  All-behind_trans x y [] h k = tt
  All-behind_trans x y (z ∷ l) h k =
      (comparator_negative (f x) (f y) (f z) h k.0, All-behind_trans x y l h k.1)

  All-push_heap :
      (b x : ℕ) (l : List ℕ)
      → behind f b x ≡ false
      → All (λ z. behind f b z ≡ false) l
      → All (λ z. behind f b z ≡ false) (push_heap (behind f) x l)
  unfolding push_heap
  All-push_heap b x [] h k = (h, tt)
  All-push_heap b x (y ∷ l) h k = ground (arith, All-push_heap b x l)

  pub push_heap-IsHeap : (x : ℕ) (l : List ℕ) → IsHeap f l → IsHeap f (push_heap (behind f) x l)
  unfolding push_heap
  push_heap-IsHeap x [] h = (tt, tt)
  push_heap-IsHeap x (y ∷ l) h = ground (
    arith,
    push_heap-IsHeap x l,
    All-push_heap y x l,
    comparator_asymm (f y) (f x),
    All-behind_trans x y l,
  )

  pub make_heap-IsHeap : (l : List ℕ) → IsHeap f (make_heap (behind f) l)
  unfolding make_heap
  make_heap-IsHeap [] = tt
  make_heap-IsHeap (x ∷ l) = push_heap-IsHeap x (make_heap (behind f) l) (make_heap-IsHeap l)

-- What the heap holds.
pub is_in-push_heap :
    (lt : ℕ → ℕ → Bool) (x z : ℕ) (l : List ℕ) → is_in z (push_heap lt x l) ≡ (x == z || is_in z l)
unfolding push_heap is_in
is_in-push_heap lt x z [] = refl
is_in-push_heap lt x z (y ∷ l) = ground (arith, is_in-push_heap lt x z l)

-- The order only depends on priorities and group ids.
abbrev pub SameKeys : (ℕ → Job) → (ℕ → Job) → Type 0
SameKeys f g = (h : ℕ) → ((f h).priority ≡ (g h).priority) × ((f h).group_id ≡ (g h).group_id)

comparator-same :
    (a b c d : Job)
    → a.priority ≡ c.priority
    → a.group_id ≡ c.group_id
    → b.priority ≡ d.priority
    → b.group_id ≡ d.group_id
    → comparator a b ≡ comparator c d
unfolding comparator
comparator-same a b c d p q r s = rw (p, q, r, s)

All-same :
    (f g : ℕ → Job) (x : ℕ) (l : List ℕ)
    → SameKeys f g
    → All (λ y. behind f x y ≡ false) l
    → All (λ y. behind g x y ≡ false) l
All-same f g x [] k a = tt
All-same f g x (y ∷ l) k a = (
  sym (comparator-same (f x) (f y) (g x) (g y) (k x).0 (k x).1 (k y).0 (k y).1) ∙ a.0,
  All-same f g x l k a.1,
)

pub IsHeap-same : (f g : ℕ → Job) (l : List ℕ) → SameKeys f g → IsHeap f l → IsHeap g l
IsHeap-same f g [] k h = tt
IsHeap-same f g (x ∷ l) k h = (All-same f g x l k h.0, IsHeap-same f g l k h.1)

-- A job that is not in the heap may change.
All-update :
    (f : ℕ → Job) (k : ℕ) (j : Job) (x : ℕ) (l : List ℕ)
    → (x == k) ≡ false
    → is_in k l ≡ false
    → All (λ y. behind f x y ≡ false) l
    → All (λ y. behind (update f k j) x y ≡ false) l
unfolding is_in update
All-update f k j x [] n m a = tt
All-update f k j x (y ∷ l) n m a = ground (arith, All-update f k j x l)

pub IsHeap-update :
    (f : ℕ → Job) (k : ℕ) (j : Job) (l : List ℕ)
    → is_in k l ≡ false
    → IsHeap f l
    → IsHeap (update f k j) l
unfolding is_in
IsHeap-update f k j [] n h = tt
IsHeap-update f k j (x ∷ l) n h = ground (arith, All-update f k j x l, IsHeap-update f k j l)
