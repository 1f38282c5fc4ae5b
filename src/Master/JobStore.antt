-- ===== src/Master/JobStore.antt =====
-- The job objects of master/job.h, their groups, the containers of JobQueue and the standard
-- functions that it calls on them. A job object is named by its id (JobManager is to give each job one
-- of its own), a group object by a number.
use prun.Base.{
  ℕ, ◌≡◌, refl, arith, Bool, true, false, ◌||◌, Option, List, [], ◌∷◌, ◌++◌, Text, ◌==◌,
  if◌then◌else◌,
}
use prun.Base.Int.{ℤ, ltb_ℤ}
use prun.Containers.IntSet.{IntSet}

-- The fields of a job that the queue and its group use.
pub record Job : Type 0 where
  pub priority : ℤ
  pub group_id : ℤ
  pub num_depends : ℤ
  pub name : Text
  pub job_group : Option ℕ
  pub vertex : ℕ

-- The graph's edges in the order in which they were added.
pub record Group : Type 0 where
  pub edges : List (ℕ × ℕ)
  pub index_to_job : List ℕ
  pub num_completed : ℕ
  pub name : Text

-- What the queue does outside itself: callbacks, JobManager::ReleaseJobName,
-- IJobEventReceiver::OnJobDelete, and the warning about an unknown delayed job.
pub data Event : Type 0 where
  callback job_deleted unknown_delayed : ℕ → Event
  name_released : Text → Event

-- `jobs` is the heap, its front first. `held` are the jobs that others still point to.
pub record Queue : Type 0 where
  pub job_of : ℕ → Job
  pub group_of : ℕ → Group
  pub jobs : List ℕ
  pub delayed : List ℕ
  pub id_to_job : IntSet
  pub names : List (Text × ℕ)
  pub held : List ℕ
  pub events : List Event

unfoldable pub update {ℓ} : {A : Type ℓ} → (ℕ → A) → ℕ → A → ℕ → A
update f k v i = if k == i then v else f i

pub update_other {ℓ} :
    {A : Type ℓ} (f : ℕ → A) (k x : ℕ) (v : A) → (k == x) ≡ false → update f k v x ≡ f x
unfolding update
update_other f k x v e = rw e refl

pub update_self {ℓ} : {A : Type ℓ} (f : ℕ → A) (k : ℕ) (v : A) → update f k v k ≡ v
unfolding update
update_self f k v = let e : (k == k) ≡ true = ground arith in rw e refl

-- JobComparatorPriority: whether `a` comes behind `b`
unfoldable pub comparator : Job → Job → Bool
comparator a b =
    if ltb_ℤ b.priority a.priority
    then true
    else (if ltb_ℤ a.priority b.priority then false else ltb_ℤ b.group_id a.group_id)

abbrev pub behind : (ℕ → Job) → ℕ → ℕ → Bool
behind f a b = comparator (f a) (f b)

-- std::push_heap behind a push_back. The standard leaves open which heap comes out; this one is
-- sorted, with what is pushed behind its equals.
unfoldable pub push_heap : (ℕ → ℕ → Bool) → ℕ → List ℕ → List ℕ
push_heap lt x [] = x ∷ []
push_heap lt x (y ∷ l) = let rest = push_heap lt x l in if lt y x then x ∷ y ∷ l else y ∷ rest

-- std::make_heap
unfoldable pub make_heap : (ℕ → ℕ → Bool) → List ℕ → List ℕ
unfolding push_heap
make_heap lt [] = []
make_heap lt (x ∷ l) = push_heap lt x (make_heap lt l)

abbrev pub push : ℕ → Queue → Queue
push h q = record q { jobs = push_heap (behind q.job_of) h q.jobs }

-- A set of pointers without repetition; its order is that of addresses and not modelled.
unfoldable pub remove : ℕ → List ℕ → List ℕ
remove h [] = []
remove h (x ∷ l) = let rest = remove h l in if x == h then rest else x ∷ rest

unfoldable pub is_in : ℕ → List ℕ → Bool
is_in h [] = false
is_in h (x ∷ l) = x == h || is_in h l

unfoldable pub insert_delayed : ℕ → List ℕ → List ℕ
unfolding is_in
insert_delayed h l = if is_in h l then l else h ∷ l

abbrev pub emit : Event → Queue → Queue
emit e q = record q { events = q.events ++ e ∷ [] }
