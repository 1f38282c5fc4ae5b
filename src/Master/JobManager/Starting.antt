-- ===== src/Master/JobManager/Starting.antt =====
-- A meta job starts (master/job_manager.cpp, master/job.cpp): PushJobs of what CreateMetaJob makes
-- puts a job into the heap.
use prun.Base.{
  ℕ, suc, zero, ◌+◌, ◌<◌, ◌≡◌, refl, sym, ap, ◌∙◌, Bool, true, false, some, List, [], ◌∷◌, Text,
  length, is_empty, arith,
}
use prun.Base.Int.{pos}
use prun.Containers.TextSet.{TextSet}
use prun.Master.JobStore.{update_other, update_self, Job, Queue, is_in}
use prun.Master.JobQueue
use prun.Master.JobQueue.{get_elem?, add_name, register, push_one, push_each, group_name}
use prun.Master.JobManager.Descriptions.{Outside, NewJob}
use prun.Master.JobManager.Graphs.{MetaJob, in_degree, create_meta_job}
use prun.Master.JobManager.{
  Manager, to_job, call, new_job, register_job_name, with_queue, ids_from, give_ids, all_to_queue,
  push_jobs, pop_job, set_job_id, set_group, add_first,
}
use prun.Master.JobManager.Ids.{register-Same, push_timeouts-queue, is_in-ids_from}
use prun.Master.JobManager.Fresh.{with_queue-SameJobs, add_first-Same}
use prun.Master.JobManager.Cycles.{FindsCycles, open_degree}
use prun.Master.JobManager.Sources.{create_meta_job-IsAt, create_meta_job-ready}
use prun.Master.JobManager.Filling.{depends, Full, push_each_free}

-- A job before the next id is left alone.
give_ids-other :
    (g x : ℕ) (js : List NewJob) (m : Manager)
    → x < m.job_id
    → depends x (give_ids g js m).queue ≡ depends x m.queue
unfolding give_ids
give_ids-other g x [] m l = refl
give_ids-other g x (j ∷ js) m l =
    let r = register_job_name j.name m in
    let m' : Manager = set_job_id g m.job_id j (record r { job_id = m.job_id + 1 }) in
    give_ids-other g x js m' (omega arith)
    ∙ ap (λ (j : Job). j.num_depends)
        (update_other r.queue.job_of m.job_id x (to_job g j) (ground arith))
    ∙ ap (λ (q : Queue). depends x q) (register-Same j.name m).0

-- The job with the `k`-th of the new ids waits for as many as the `k`-th new job.
give_ids-depends :
    (g k : ℕ) (js : List NewJob) (j : NewJob) (m : Manager)
    → get_elem? js k ≡ some j
    → depends (m.job_id + k) (give_ids g js m).queue ≡ j.num_depends
unfolding give_ids
give_ids-depends g k [] j m h = absurd (ground arith)
give_ids-depends g zero (i ∷ js) j m h =
    let r = register_job_name i.name m in
    let m' : Manager = set_job_id g m.job_id i (record r { job_id = m.job_id + 1 }) in
    let e : i ≡ j = cc in
    ap (λ x. depends x (give_ids g js m').queue) (omega arith)
    ∙ give_ids-other g m.job_id js m' (omega arith)
    ∙ ap (λ (j : Job). j.num_depends) (update_self r.queue.job_of m.job_id (to_job g i))
    ∙ ap (λ (x : NewJob). x.num_depends) e
give_ids-depends g (suc k) (i ∷ js) j m h =
    let r = register_job_name i.name m in
    let m' : Manager = set_job_id g m.job_id i (record r { job_id = m.job_id + 1 }) in
    ap (λ x. depends x (give_ids g js m').queue) (omega arith) ∙ give_ids-depends g k js j m' h

get_elem?_lt : (js : List NewJob) (k : ℕ) → k < length js → (j : NewJob) × (get_elem? js k ≡ some j)
get_elem?_lt [] k l = absurd (omega arith)
get_elem?_lt (j ∷ js) zero l = (j, refl)
get_elem?_lt (j ∷ js) (suc k) l = get_elem?_lt js k (omega arith)

-- Without any job done, the open edges are all edges.
open_degree_none : (v : ℕ) (es : List (ℕ × ℕ)) → open_degree (λ _. false) v es ≡ in_degree v es
unfolding open_degree in_degree
open_degree_none v [] = refl
open_degree_none v ((a, b) ∷ es) = ground (arith, open_degree_none v es)

all_to_queue-Full :
    (g i x : ℕ) (js : List NewJob) (m : Manager)
    → is_in x (ids_from i js) ≡ true
    → depends x m.queue ≡ pos 0
    → Full (all_to_queue g (ids_from i js) m).queue
unfolding ids_from is_in JobQueue.push_jobs
all_to_queue-Full g i x [] m e d = absurd (ground arith)
all_to_queue-Full g i x (j ∷ js) m e d =
    let hs = ids_from (suc i) js in
    let q = JobQueue.push_jobs i hs (pos g) m.queue in
    ap is_empty (with_queue-SameJobs q m).0
    ∙ push_each_free (group_name (m.queue.job_of i).job_group m.queue) (pos g) (i ∷ hs) x m.queue e
        d

push_jobs-Full :
    (second now k : ℕ) (mj : MetaJob) (j : NewJob) (m : Manager)
    → k < length mj.jobs
    → get_elem? mj.jobs k ≡ some j
    → j.num_depends ≡ pos 0
    → Full (push_jobs second now mj m).queue
unfolding push_jobs
push_jobs-Full second now k mj j m l h d =
    let i = m.job_id in
    let g = m.num_job_groups in
    let ids = ids_from i mj.jobs in
    let m0 : Manager = set_group g mj ids (record m { num_job_groups = g + 1 }) in
    let m' = give_ids g mj.jobs m0 in
    let e = give_ids-depends g k mj.jobs j m0 h in
    let b = is_in-ids_from i (i + k) mj.jobs in
    let c : is_empty mj.jobs ≡ false = ground arith in
    let f = all_to_queue-Full g i (i + k) mj.jobs m' (ground arith) (e ∙ d) in
    let (t, _) =
      push_timeouts-queue second now i mj.jobs
        (call new_job (add_first i mj.jobs (all_to_queue g ids m'))) in
    let (a, _, _, _) = add_first-Same i mj.jobs (all_to_queue g ids m') in
    rw (c, push_jobs) (ap (λ (q : Queue). is_empty q.jobs) (t ∙ a) ∙ f)

heap_pops :
    (q : Queue) (l : List ℕ)
    → is_empty l ≡ false
    → (h : ℕ) × (r : Queue) × (JobQueue.pop_job (record q { jobs = l }) ≡ some (h, r))
unfolding JobQueue.pop_job
heap_pops q [] e = absurd (ground arith)
heap_pops q (h ∷ l) e = (h, _, refl)

pop-Full : (m : Manager) → Full m.queue → (h : ℕ) × (n : Manager) × (pop_job m ≡ some (h, n))
unfolding pop_job
pop-Full m e =
    let (h, q, p) = heap_pops m.queue m.queue.jobs e in (h, with_queue q m, rw (p, pop_job) refl)

-- If depth_first_search finds the graphs with cycles, then after PushJobs of a meta job that
-- CreateMetaJob makes, with at least one job, PopJob returns a job.
pub push_jobs-starts :
    (out : Outside) (dir : Text) (names : TextSet) (text : Text) (check : Bool) (mj : MetaJob)
    (second now : ℕ) (m : Manager)
    → FindsCycles out
    → create_meta_job out dir names text check ≡ some mj
    → 0 < length mj.jobs
    → (h : ℕ) × (n : Manager) × (pop_job (push_jobs second now mj m) ≡ some (h, n))
push_jobs-starts out dir names text check mj second now m f h l =
    let (u, k, _, o) =
      create_meta_job-ready out dir names text check mj (λ _. false) 0 f h l refl in
    let (j, g) = get_elem?_lt mj.jobs u k in
    let (_, d, _) = (create_meta_job-IsAt out dir names text check mj h).1 u j g in
    pop-Full (push_jobs second now mj m)
      (push_jobs-Full second now u mj j m k g (d ∙ ap pos (sym (open_degree_none u mj.edges) ∙ o)))
