-- ===== src/Master/JobQueue/Pushing.antt =====
-- PushJob and PushJobs keep the heap of JobQueue in order.
use prun.Base.{ℕ, ◌≡◌, Bool, true, false, ◌||◌, List, [], ◌∷◌, Text, is_empty, if◌then◌else◌, arith}
use prun.Base.Int.{ℤ, pos, ltb_ℤ}
use prun.Master.JobStore.{Queue, behind, push_heap, push, is_in, insert_delayed}
use prun.Master.JobQueue.{add_name, register, push_job, push_one, push_each, push_jobs, group_name}
use prun.Master.JobQueue.Heap.{push_heap-IsHeap, is_in-push_heap, IsHeap-update}
use prun.Master.JobQueue.Order.{IsOrdered, if-IsOrdered}

push-IsOrdered : (h : ℕ) (q : Queue) → IsOrdered q → IsOrdered (push h q)
push-IsOrdered h q o = push_heap-IsHeap q.job_of h q.jobs o

add_name-IsOrdered : (n : Text) (h : ℕ) (q : Queue) → IsOrdered q → IsOrdered (add_name n h q)
add_name-IsOrdered n h q o = if-IsOrdered (is_empty n) q _ o o

register-IsOrdered :
    (h : ℕ) (g : ℤ) (q : Queue) → is_in h q.jobs ≡ false → IsOrdered q → IsOrdered (register g h q)
register-IsOrdered h g q n o = IsHeap-update q.job_of h _ q.jobs n o

-- PushJob keeps the order, for a job that is not in the heap yet.
pub push_job-IsOrdered :
    (h : ℕ) (g : ℤ) (q : Queue) → is_in h q.jobs ≡ false → IsOrdered q → IsOrdered (push_job h g q)
unfolding push_job
push_job-IsOrdered h g q n o =
    let q' = register g h q in
    push-IsOrdered h (add_name (q'.job_of h).name h q')
      (add_name-IsOrdered (q'.job_of h).name h q' (register-IsOrdered h g q n o))

-- PushJobs needs jobs that are not in the heap and differ from one another.
abbrev pub AreFresh : List ℕ → List ℕ → Type 0
AreFresh [] l = Unit
AreFresh (h ∷ hs) l = (is_in h l ≡ false) × (is_in h hs ≡ false) × AreFresh hs l

AreFresh-push_heap :
    (lt : ℕ → ℕ → Bool) (h : ℕ) (hs l : List ℕ)
    → is_in h hs ≡ false
    → AreFresh hs l
    → AreFresh hs (push_heap lt h l)
unfolding is_in
AreFresh-push_heap lt h [] l n a = tt
AreFresh-push_heap lt h (x ∷ hs) l n a =
    ground (arith, is_in-push_heap lt h x l, AreFresh-push_heap lt h hs l)

abbrev IsReady : List ℕ → Queue → Type 0
IsReady hs q = IsOrdered q × AreFresh hs q.jobs

if-IsReady :
    (hs : List ℕ) (b : Bool) (q r : Queue)
    → IsReady hs q
    → IsReady hs r
    → IsReady hs (if b then q else r)
if-IsReady hs true q r o p = o
if-IsReady hs false q r o p = p

add_name-IsReady :
    (n : Text) (h : ℕ) (hs : List ℕ) (q : Queue) → IsReady hs q → IsReady hs (add_name n h q)
add_name-IsReady n h hs q o = if-IsReady hs (is_empty n) q _ o o

push-IsReady :
    (h : ℕ) (hs : List ℕ) (q : Queue) → is_in h hs ≡ false → IsReady hs q → IsReady hs (push h q)
push-IsReady h hs q n o =
    (push-IsOrdered h q o.0, AreFresh-push_heap (behind q.job_of) h hs q.jobs n o.1)

push_one-IsReady :
    (m : Text) (g : ℤ) (h : ℕ) (hs : List ℕ) (q : Queue)
    → AreFresh (h ∷ hs) q.jobs
    → IsOrdered q
    → IsReady hs (push_one m g h q)
unfolding push_one
push_one-IsReady m g h hs q a o =
    let r = register g h q in
    let s = add_name m h r in
    let t = add_name (q.job_of h).name h s in
    let n = (q.job_of h).num_depends in
    let t-IsReady : IsReady hs t =
      add_name-IsReady (q.job_of h).name h hs s
        (add_name-IsReady m h hs r (register-IsOrdered h g q a.0 o, a.2)) in
    if-IsReady hs (ltb_ℤ (pos 0) n || ltb_ℤ n (pos 0))
      (record t { delayed = insert_delayed h t.delayed }) (push h t) t-IsReady
      (push-IsReady h hs t a.1 t-IsReady)

push_each-IsOrdered :
    (m : Text) (g : ℤ) (hs : List ℕ) (q : Queue)
    → AreFresh hs q.jobs
    → IsOrdered q
    → IsOrdered (push_each m g hs q)
unfolding push_each
push_each-IsOrdered m g [] q a o = o
push_each-IsOrdered m g (h ∷ hs) q a o =
    let (o', a') = push_one-IsReady m g h hs q a o in
    push_each-IsOrdered m g hs (push_one m g h q) a' o'

-- PushJobs keeps the order, for jobs that differ from one another and are not in the heap yet.
pub push_jobs-IsOrdered :
    (h : ℕ) (hs : List ℕ) (g : ℤ) (q : Queue)
    → AreFresh (h ∷ hs) q.jobs
    → IsOrdered q
    → IsOrdered (push_jobs h hs g q)
unfolding push_jobs
push_jobs-IsOrdered h hs g q a o =
    push_each-IsOrdered (group_name (q.job_of h).job_group q) g (h ∷ hs) q a o
