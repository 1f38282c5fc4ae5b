-- ===== src/Master/JobQueue/Checks.antt =====
-- Tests of the model of the job queue, and its theorems at a concrete queue.
use prun.Base.{arith, ℕ, ◌+◌, ◌≡◌, refl, false, none, some, [], ◌∷◌, codes, ◌==◌, if◌then◌else◌}
use prun.Base.Int.{pos}
use prun.Containers.IntSet
use prun.Master.JobStore.{Job, Group, Queue, comparator, is_in, callback, job_deleted}
use prun.Master.JobQueue.{push_job, push_jobs, on_job_completion, delete_job, out_jobs}
use prun.Master.JobQueue.Consistency.{IsConsistent, AreNew}
use prun.Master.JobQueue.Order.{IsOrdered}
use prun.Master.JobQueue.Dependencies.{IsWaiting, IsResolved}
use prun.Master.JobQueue.Completion.{num_edges, on_job_completion-IsResolved}

-- Jobs 0, 1 and 2 of one group; 1 waits for 0, and 2 waits for both. Job 7 is alone.
abbrev job_of : ℕ → Job
job_of h =
    if h == 7
    then record {
      priority = pos 1;
      group_id = pos 9;
      num_depends = pos 0;
      name = codes "alone";
      job_group = none;
      vertex = 0;
    }
    else record {
      priority = pos 4;
      group_id = pos 8;
      num_depends = pos h;
      name = [];
      job_group = some 0;
      vertex = h;
    }

abbrev group : Group
group = record {
  edges = (0, 1) ∷ (0, 2) ∷ (1, 2) ∷ [];
  index_to_job = 0 ∷ 1 ∷ 2 ∷ [];
  num_completed = 0;
  name = codes "meta";
}

abbrev empty : Queue
empty = record {
  job_of = job_of;
  group_of = λ k. group;
  jobs = [];
  delayed = [];
  id_to_job = [];
  names = [];
  held = [];
  events = [];
}

-- What push_jobs and push_job make of it
abbrev queue : Queue
queue = record {
  job_of = job_of;
  group_of = λ k. group;
  jobs = 7 ∷ 0 ∷ [];
  delayed = 2 ∷ 1 ∷ [];
  id_to_job = 0 ∷ 1 ∷ 2 ∷ 7 ∷ [];
  names = (codes "meta", 0) ∷ (codes "meta", 1) ∷ (codes "meta", 2) ∷ (codes "alone", 7) ∷ [];
  held = [];
  events = [];
}

-- The queue that is filled by the operations
filled_queue :
    ((push_job 7 (pos 9) (push_jobs 0 (1 ∷ 2 ∷ []) (pos 8) empty)).jobs ≡ queue.jobs)
    × ((push_job 7 (pos 9) (push_jobs 0 (1 ∷ 2 ∷ []) (pos 8) empty)).delayed ≡ queue.delayed)
    × ((push_job 7 (pos 9) (push_jobs 0 (1 ∷ 2 ∷ []) (pos 8) empty)).names ≡ queue.names)
unfolding push_job push_jobs comparator
filled_queue = (refl, refl, refl)

-- Deleting the first job of the group releases the second.
deleted_first :
    ((delete_job 0 queue).0.jobs ≡ 7 ∷ 1 ∷ [])
    × ((delete_job 0 queue).0.delayed ≡ 2 ∷ [])
    × ((delete_job 0 queue).0.events ≡ callback 0 ∷ job_deleted 0 ∷ [])
unfolding delete_job comparator IntSet.contains
deleted_first = (refl, refl, refl)

queue-IsOrdered : IsOrdered queue
unfolding comparator
queue-IsOrdered = ((refl, tt), (tt, tt))

empty-IsOrdered : IsOrdered empty
empty-IsOrdered = tt

fresh_3 : is_in 3 queue.jobs ≡ false
unfolding is_in
fresh_3 = refl

two-IsWaiting : IsWaiting (1 + num_edges 2 0 0 queue) 2 queue
unfolding is_in out_jobs
two-IsWaiting = (refl, refl)

one-IsWaiting : IsWaiting 1 1 queue
unfolding is_in
one-IsWaiting = (refl, refl)

one_edge : num_edges 1 0 0 queue ≡ 1
unfolding out_jobs
one_edge = refl

on_job_completion-IsResolved_example : IsResolved 1 (on_job_completion 0 0 queue).0
on_job_completion-IsResolved_example =
    on_job_completion-IsResolved 1 0 0 0 queue one_edge one-IsWaiting

empty-IsConsistent : IsConsistent empty
unfolding IntSet.contains
empty-IsConsistent = record { ids_ascend = tt; listed_once = λ z. refl }

empty-AreNew : AreNew (0 ∷ 1 ∷ 2 ∷ []) empty.id_to_job
unfolding is_in IntSet.contains
empty-AreNew = (refl, refl, (refl, refl, (refl, refl, tt)))

queue-IsConsistent : IsConsistent queue
unfolding IntSet.contains
queue-IsConsistent = record { ids_ascend = ground arith; listed_once = λ z. ground arith }
