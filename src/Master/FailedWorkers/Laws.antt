-- ===== src/Master/FailedWorkers/Laws.antt =====
-- What FailedWorkers remembers after each operation.
use prun.Base.{
  ℕ, ◌+◌, ◌≡◌, refl, ap, sym, ◌∙◌, true, false, not, ◌&&◌, ◌||◌, none, some, [], ◌∷◌, map, length,
  Text, text_eq, ◌==◌, if◌then◌else◌, arith,
}
use prun.Containers.IntSet
use prun.Containers.IntSet.{IntSet}
use prun.Containers.IntMap
use prun.Containers.IntMap.{IntMap}
use prun.Containers.TextSet
use prun.Containers.TextSet.{TextSet}
use prun.Master.WorkerJob.{WorkerJob, get_jobs, has_job}
use prun.Master.FailedWorkers.{
  FailedWorkers, workers_of, add, add_each, add_jobs, is_worker_failed_job, get_failed_nodes_cnt,
}

failed-workers_of :
    (ip : Text) (j : ℕ) (f : FailedWorkers)
    → is_worker_failed_job ip j f ≡ TextSet.contains ip (workers_of j f.failed)
unfolding is_worker_failed_job workers_of TextSet.contains
failed-workers_of ip j f = ground arith

count-workers_of :
    (j : ℕ) (f : FailedWorkers) → get_failed_nodes_cnt j f ≡ length (workers_of j f.failed)
unfolding get_failed_nodes_cnt workers_of
count-workers_of j f = ground arith

workers_of-put :
    (j i : ℕ) (s : TextSet) (m : IntMap TextSet)
    → workers_of i (IntMap.put j s m) ≡ (if j == i then s else workers_of i m)
unfolding workers_of
workers_of-put j i s m = ground (arith, IntMap.find-put j i s m)

-- Add answers whether the worker had not failed the job before; after it exactly this pair is
-- remembered in addition, and the job's count of failed nodes grows by one exactly if it was new.
pub is_worker_failed_job-add :
    (j i : ℕ) (ip q : Text) (f : FailedWorkers)
    → ((add j ip f).1 ≡ not (is_worker_failed_job ip j f))
      × (is_worker_failed_job q i (add j ip f).0
          ≡ ((j == i && text_eq ip q) || is_worker_failed_job q i f))
      × (get_failed_nodes_cnt i (add j ip f).0
          ≡ get_failed_nodes_cnt i f + (if j == i && (add j ip f).1 then 1 else 0))
unfolding add
is_worker_failed_job-add j i ip q f =
    let s = workers_of j f.failed in
    let t = (TextSet.insert ip s).0 in
    let law = workers_of-put j i t f.failed in
    (
      TextSet.insert_new ip s ∙ ap not (sym (failed-workers_of ip j f)),
      failed-workers_of q i (add j ip f).0
          ∙ ground (arith, failed-workers_of q i f, TextSet.contains-insert ip q s),
      count-workers_of i (add j ip f).0
          ∙ ground
              (arith, count-workers_of i f, TextSet.length-insert ip s, TextSet.insert_new ip s),
    )

contains-keys :
    (j : ℕ) (m : IntMap IntSet)
    → (elim (IntMap.find j m) [ none ↦ false | some tasks ↦ true ])
      ≡ IntSet.contains j (map (λ e. e.0) m)
unfolding IntMap.find IntSet.contains
contains-keys j [] = refl
contains-keys j ((i, s) ∷ m) = ground (arith, contains-keys j m)

has_job-member : (j : ℕ) (w : WorkerJob) → has_job j w ≡ IntSet.contains j (get_jobs w)
unfolding has_job get_jobs
has_job-member j w = contains-keys j w.jobs

is_worker_failed_job-add_each :
    (js : IntSet) (i : ℕ) (ip q : Text) (f : FailedWorkers)
    → is_worker_failed_job q i (add_each js ip f)
      ≡ ((IntSet.contains i js && text_eq ip q) || is_worker_failed_job q i f)
unfolding add_each IntSet.contains
is_worker_failed_job-add_each [] i ip q f = refl
is_worker_failed_job-add_each (j ∷ js) i ip q f = ground (
  arith,
  is_worker_failed_job-add_each js i ip q (add j ip f).0,
  (is_worker_failed_job-add j i ip q f).1,
)

-- Add with a worker's jobs marks the worker as failed for each job that it has, and for no other.
pub is_worker_failed_job-add_jobs :
    (w : WorkerJob) (i : ℕ) (ip q : Text) (f : FailedWorkers)
    → is_worker_failed_job q i (add_jobs w ip f)
      ≡ ((has_job i w && text_eq ip q) || is_worker_failed_job q i f)
unfolding add_jobs
is_worker_failed_job-add_jobs w i ip q f =
    ground (arith, is_worker_failed_job-add_each (get_jobs w) i ip q f, has_job-member i w)
