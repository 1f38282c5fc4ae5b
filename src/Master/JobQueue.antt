-- ===== src/Master/JobQueue.antt =====
-- JobQueue and JobGroup of master/job.h and master/job.cpp: the queued jobs in order of priority,
-- the jobs that wait for others of their group, and the lookups by id and by name.
pub mod Heap
pub mod Order
pub mod Pushing
pub mod Reaching
pub mod Dependencies
pub mod Completion
pub mod Keeping
pub mod Consistency
pub mod Deletion
mod Checks
use prun.Master.JobStore.{
  Job, Group, Event, Queue, update, comparator, behind, push_heap, make_heap, push, remove, is_in,
  insert_delayed, emit, callback, job_deleted, unknown_delayed, name_released,
}
use prun.Base.{
  ℕ, zero, suc, ◌+◌, Bool, true, false, not, ◌&&◌, ◌||◌, Option, none, some, List, [], ◌∷◌, ◌++◌,
  map, any, length, is_empty, Text, text_eq, ◌==◌, if◌then◌else◌,
}
use prun.Base.Int.{ℤ, pos, ltb_ℤ, ◌-ℤ◌}
use prun.Containers.IntSet
use prun.Containers.IntSet.{IntSet}

abbrev pub add_name : Text → ℕ → Queue → Queue
add_name n h q = if is_empty n then q else record q { names = q.names ++ (n, h) ∷ [] }

-- job->SetGroupId( groupId ); idToJob_[ job->GetJobId() ] = job
abbrev pub register : ℤ → ℕ → Queue → Queue
register g h q = record q {
  job_of = update q.job_of h (record (q.job_of h) { group_id = g });
  id_to_job = IntSet.insert h q.id_to_job;
}

-- PushJob
unfoldable pub push_job : ℕ → ℤ → Queue → Queue
unfolding push_heap update
push_job h g q = let q' = register g h q in push h (add_name (q'.job_of h).name h q')

-- The body of the loop of PushJobs
unfoldable pub push_one : Text → ℤ → ℕ → Queue → Queue
unfolding push_heap update insert_delayed
push_one meta g h q =
    let q' = add_name (q.job_of h).name h (add_name meta h (register g h q)) in
    if ltb_ℤ (pos 0) (q.job_of h).num_depends || ltb_ℤ (q.job_of h).num_depends (pos 0)
    then record q' { delayed = insert_delayed h q'.delayed }
    else push h q'

unfoldable pub push_each : Text → ℤ → List ℕ → Queue → Queue
unfolding push_one
push_each meta g [] q = q
push_each meta g (h ∷ hs) q = push_each meta g hs (push_one meta g h q)

abbrev pub group_name : Option ℕ → Queue → Text
group_name none q = []
group_name (some k) q = (q.group_of k).name

-- PushJobs, of a list that is not empty
unfoldable pub push_jobs : ℕ → List ℕ → ℤ → Queue → Queue
unfolding push_each
push_jobs h hs g q = push_each (group_name (q.job_of h).job_group q) g (h ∷ hs) q

unfoldable pub get_job_by_id : ℕ → Queue → Option ℕ
get_job_by_id i q = if IntSet.contains i q.id_to_job then some i else none

unfoldable pub get_jobs_by_name : Text → List (Text × ℕ) → IntSet
get_jobs_by_name n [] = []
get_jobs_by_name n ((m, h) ∷ l) =
    let rest = get_jobs_by_name n l in if text_eq m n then IntSet.insert h rest else rest

-- PopJob: the caller then holds the job
unfoldable pub pop_job : Queue → Option (ℕ × Queue)
pop_job q = elim q.jobs [
  | [] ↦ none
  | h ∷ l ↦
      some (h, record q { jobs = l; id_to_job = IntSet.erase h q.id_to_job; held = h ∷ q.held })
]

-- OnJobDependenciesResolved
unfoldable pub on_job_dependencies_resolved : ℕ → Queue → Queue
unfolding is_in push_heap remove
on_job_dependencies_resolved h q =
    if is_in h q.delayed
    then record (push h q) { delayed = remove h q.delayed }
    else emit (unknown_delayed h) q

-- weak_ptr::lock: whether some pointer still keeps the job
unfoldable pub is_alive : ℕ → Queue → Bool
unfolding is_in
is_alive h q =
    is_in h q.jobs
    || is_in h q.delayed
    || IntSet.contains h q.id_to_job
    || any (λ e. e.1 == h) q.names
    || is_in h q.held

-- The body of the loop of JobGroup::OnJobCompletion, for the job at the end of an edge
unfoldable pub complete_edge : ℕ → Queue → Queue
unfolding is_alive on_job_dependencies_resolved update
complete_edge h q =
    let n = (q.job_of h).num_depends in
    let q' : Queue = record q {
      job_of = update q.job_of h (record (q.job_of h) { num_depends = n -ℤ pos 1 });
    } in
    if is_alive h q then (if ltb_ℤ n (pos 2) then on_job_dependencies_resolved h q' else q') else q

unfoldable pub complete_edges : List ℕ → Queue → Queue
unfolding complete_edge
complete_edges [] q = q
complete_edges (h ∷ hs) q = complete_edges hs (complete_edge h q)

abbrev pub get_elem? {ℓ} : {A : Type ℓ} → List A → ℕ → Option A
get_elem? [] i = none
get_elem? (x ∷ xs) zero = some x
get_elem? (x ∷ xs) (suc i) = get_elem? xs i

abbrev pub cons_some {ℓ} : {A : Type ℓ} → Option A → List A → List A
cons_some none l = l
cons_some (some a) l = a ∷ l

-- The jobs at the ends of the out-edges of a vertex; a vertex without a job has none.
unfoldable pub out_jobs : ℕ → List (ℕ × ℕ) → List ℕ → List ℕ
out_jobs v [] index = []
out_jobs v ((a, b) ∷ es) index =
    let rest = out_jobs v es index in if a == v then cons_some (get_elem? index b) rest else rest

-- JobGroup::OnJobCompletion: the queue, and whether this was the last job of the group
unfoldable pub on_job_completion : ℕ → ℕ → Queue → Queue × Bool
unfolding complete_edges out_jobs
on_job_completion k v q =
    let g = q.group_of k in
    let q' = complete_edges (out_jobs v g.edges g.index_to_job) q in
    (
      record q' {
        group_of = update q'.group_of k (record g { num_completed = g.num_completed + 1 });
      },
      (g.num_completed + 1) == length g.index_to_job,
    )

-- nameToJob_.erase( name )
unfoldable pub erase_name : Text → List (Text × ℕ) → List (Text × ℕ)
erase_name n [] = []
erase_name n ((m, h) ∷ l) = let rest = erase_name n l in if text_eq m n then rest else (m, h) ∷ rest

-- The loop of ReleaseMetaJobName: the first entry of this name and job goes
unfoldable pub release_meta_job_name : Text → ℕ → List (Text × ℕ) → List (Text × ℕ)
release_meta_job_name n h [] = []
release_meta_job_name n h ((m, i) ∷ l) =
    let rest = release_meta_job_name n h l in if text_eq m n && i == h then l else (m, i) ∷ rest

abbrev pub release_last : Bool → Text → Queue → Queue
release_last true n q = emit (name_released n) q
release_last false n q = q

abbrev pub leave_group : Option ℕ → ℕ → Queue → Queue
leave_group none h q = q
leave_group (some k) h q =
    let n = (q.group_of k).name in
    let q' : Queue = record q { names = release_meta_job_name n h q.names } in
    let (q'', is_last) = on_job_completion k (q.job_of h).vertex q' in release_last is_last n q''

-- OnJobDeletion
unfoldable pub on_job_deletion : ℕ → Queue → Queue
unfolding on_job_completion release_meta_job_name update
on_job_deletion h q =
    emit (job_deleted h) (leave_group (q.job_of h).job_group h (emit (callback h) q))

abbrev pub forget_name : Text → Queue → Queue
forget_name n q =
    if is_empty n then q else emit (name_released n) (record q { names = erase_name n q.names })

-- The first occurrence of a job in the vector goes, and the vector becomes a heap again.
unfoldable pub remove_first : ℕ → List ℕ → List ℕ
remove_first h [] = []
remove_first h (x ∷ l) = let rest = remove_first h l in if x == h then l else x ∷ rest

abbrev pub take_out : ℕ → Queue → Queue
take_out h q =
    if is_in h q.jobs
    then record q { jobs = make_heap (behind q.job_of) (remove_first h q.jobs) }
    else record q { delayed = remove h q.delayed }

-- Local pointers keep jobs while a function runs.
abbrev pub holding : List ℕ → Queue → Queue
holding hs q = record q { held = hs ++ q.held }

abbrev pub released : List ℕ → Queue → Queue
released held q = record q { held = held }

-- DeleteJob
unfoldable pub delete_job : ℕ → Queue → Queue × Bool
unfolding on_job_deletion erase_name make_heap remove_first remove is_in
delete_job h q =
    let q' : Queue = holding (h ∷ []) (record q { id_to_job = IntSet.erase h q.id_to_job }) in
    if IntSet.contains h q.id_to_job
    then (released q.held (take_out h (on_job_deletion h (forget_name (q.job_of h).name q'))), true)
    else (q, false)

unfoldable pub in_group : ℤ → (ℕ → Job) → List ℕ → List ℕ
in_group g f [] = []
in_group g f (h ∷ l) =
    let rest = in_group g f l in
    if ltb_ℤ (f h).group_id g || ltb_ℤ g (f h).group_id then rest else h ∷ rest

unfoldable pub delete_each : List ℕ → Queue → Bool → Queue × Bool
unfolding delete_job
delete_each [] q deleted = (q, deleted)
delete_each (h ∷ hs) q deleted = delete_each hs (delete_job h q).0 (delete_job h q).1

-- DeleteJobGroup: group ids do not change in its second loop, so its second test passes.
unfoldable pub delete_job_group : ℤ → Queue → Queue × Bool
unfolding in_group delete_each
delete_job_group g q =
    let hs = in_group g q.job_of q.jobs ++ in_group g q.job_of q.delayed in
    let (q', deleted) = delete_each hs (holding hs q) false in (released q.held q', deleted)

-- Clear
unfoldable pub clear : Queue → Queue
unfolding delete_each
clear q = let hs = q.jobs ++ q.delayed in released q.held (delete_each hs (holding hs q) false).0
