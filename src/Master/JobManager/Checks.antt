-- ===== src/Master/JobManager/Checks.antt =====
-- Tests of the model of JobManager, and its theorems at concrete jobs.
use prun.Base.{
  ℕ, ◌+◌, ◌≡◌, ◌≢◌, ◌<◌, refl, true, false, Option, none, some, List, [], ◌∷◌, Text, codes, text_eq,
  All, any, leb, ◌==◌, if◌then◌else◌, arith,
}
use prun.Base.Int.{pos, negsuc}
use prun.Containers.IntSet
use prun.Master.JobStore.{comparator}
use prun.Master.JobQueue.{get_elem?}
use prun.Master.JobQueue.Consistency.{IsConsistent}
use prun.Master.JobManager.Descriptions.{
  Ptree, Outside, NewJob, create_from, create_job, read_permissions,
}
use prun.Master.JobManager.Graphs.{create_meta_job}
use prun.Master.JobManager.{Manager, push_job, push_jobs, pop_job, delete_job, delete_named_job}
use prun.Master.JobManager.Samples.{job, both, manager}
use prun.Master.JobManager.Building.{restore_job, restore_meta, build_and_push_job}
use prun.Master.JobManager.Fresh.{IsFresh}
use prun.Master.JobManager.Arriving.{Arrives, push_job-Arrives, push_jobs-Arrives}
use prun.Master.JobManager.Cycles.{FindsCycles, open_degree, Within}
use prun.Master.JobManager.Restoring.{restore_meta_collides}
use prun.Master.JobManager.Deleting.{Loses, has_name, delete_named_job-Loses}
use prun.Master.JobManager.Watching.{is_watched, restore_job-watches}
use prun.Master.JobManager.Naming.{push_job-takes}
use prun.Master.JobManager.Starting.{push_jobs-starts}
use prun.Master.JobManager.Sources.{IsAt, create_meta_job-IsAt, create_meta_job-ready}

abbrev find {ℓ} : {A : Type ℓ} → Text → List (Text × A) → Option A
find k [] = none
find k ((i, v) ∷ l) = if text_eq i k then some v else find k l

abbrev count {ℓ} : {A : Type ℓ} → Text → List (Text × A) → ℕ
count k [] = 0
count k ((i, v) ∷ l) = if text_eq i k then 1 else count k l

-- A tree with these texts and lists of lists, and the same number and the same flag for each key
abbrev tree : List (Text × Text) → List (Text × List (List Text)) → Ptree
tree texts lists = record {
  get_text = λ k. find k texts;
  get_int = λ k. some (pos 1);
  get_bool = λ k. some false;
  count = λ k. count k texts + count k lists;
  get_list = λ k. none;
  get_lists = λ k. find k lists;
}

abbrev job_tree : Ptree
job_tree = tree ((codes "script", codes "run.py") ∷ (codes "language", codes "python") ∷ []) []

-- Job b waits for job a.
abbrev meta_tree : Ptree
meta_tree =
    tree ((codes "name", codes "both") ∷ [])
      ((codes "graph", (codes "a" ∷ codes "b" ∷ []) ∷ []) ∷ [])

-- The edges that do not lead to a greater vertex
abbrev backward : List (ℕ × ℕ) → List (ℕ × ℕ)
backward [] = []
backward ((a, b) ∷ es) = let rest = backward es in if leb b a then (a, b) ∷ rest else rest

abbrev out : Outside
out = record {
  read_json = λ t. some (if text_eq t (codes "meta") then meta_tree else job_tree);
  read_file = λ p. some (codes "job");
  encode_base64 = λ d. some d;
  parses_cron = λ c. true;
  back_edges = backward;
}

backward_none : (es : List (ℕ × ℕ)) → backward es ≡ [] → All (λ (e : ℕ × ℕ). e.0 < e.1) es
backward_none [] h = tt
backward_none ((a, b) ∷ es) h = ground (arith, backward_none es)

out-FindsCycles : FindsCycles out
out-FindsCycles es h = (λ n. n, backward_none es h)

abbrev dir : Text
dir = codes "/jobs"

created : create_job out dir [] (codes "job") true ≡ some (job [])
unfolding create_job create_from read_permissions
created = refl

made : create_meta_job out dir [] (codes "meta") true ≡ some both
unfolding create_meta_job
made = refl

manager-IsConsistent : IsConsistent manager.queue
unfolding IntSet.contains
manager-IsConsistent = record { ids_ascend = tt; listed_once = λ z. refl }

manager-IsFresh : IsFresh manager
unfolding IntSet.contains
manager-IsFresh = record { consistent = manager-IsConsistent; below = λ z h. absurd (ground arith) }

abbrev pushed : Manager
pushed = push_jobs 1 0 both manager

first_popped : (pushed.queue.jobs ≡ 0 ∷ []) × (pushed.queue.delayed ≡ 1 ∷ []) × (pushed.job_id ≡ 2)
unfolding push_jobs
first_popped = (refl, refl, refl)

built :
    (build_and_push_job 1 0 out (pos 4) (codes "meta") false manager).queue.id_to_job ≡ 4 ∷ 5 ∷ []
unfolding build_and_push_job IntSet.insert
built = refl

unplanned :
    (build_and_push_job 1 0 out (negsuc 0) (codes "meta") false manager).queue.id_to_job ≡ []
unfolding build_and_push_job IntSet.insert
unplanned = refl

deleted : (delete_job 0 pushed).0.queue.jobs ≡ 1 ∷ []
unfolding push_jobs delete_job IntSet.contains IntSet.insert comparator
deleted = refl

push_jobs-Arrives_example : Arrives both.jobs manager (push_jobs 1 0 both manager)
push_jobs-Arrives_example = push_jobs-Arrives 1 0 both manager manager-IsFresh

restore_meta_collides_example :
    IntSet.contains
      (restore_meta 1 0 4 both manager).job_id
      (restore_meta 1 0 4 both manager).queue.id_to_job
    ≡ true
restore_meta_collides_example =
    restore_meta_collides 1 0 4 0 both manager manager-IsFresh (omega arith) (omega arith)

create_meta_job-IsAt_example :
    Within 2 both.edges
    × ((v : ℕ) (j : NewJob) → get_elem? both.jobs v ≡ some j → IsAt v both.edges j)
create_meta_job-IsAt_example = create_meta_job-IsAt out dir [] (codes "meta") true both made

-- The first job is done.
create_meta_job-ready_example :
    (u : ℕ) × (u < 2) × ((u == 0) ≡ false) × (open_degree (λ v. v == 0) u both.edges ≡ 0)
create_meta_job-ready_example =
    create_meta_job-ready out dir [] (codes "meta") true both (λ v. v == 0) 1 out-FindsCycles made
      (omega arith) refl

push_jobs-starts_example :
    (h : ℕ) × (n : Manager) × (pop_job (push_jobs 1 0 both manager) ≡ some (h, n))
push_jobs-starts_example =
    push_jobs-starts out dir [] (codes "meta") true both 1 0 manager out-FindsCycles made
      (omega arith)

restore_job-watches_example :
    (is_watched 7 (restore_job 1 0 7 (job []) manager).callbacks ≡ false)
    × (is_watched 8 (restore_job 1 0 7 (job []) manager).callbacks ≡ true)
restore_job-watches_example = restore_job-watches 1 0 7 (job []) manager refl

-- A manager with the one named job
abbrev named : Manager
named = push_job 1 0 (job (codes "one")) manager

named-IsConsistent : IsConsistent named.queue
named-IsConsistent = (push_job-Arrives 1 0 (job (codes "one")) manager manager-IsFresh).0.consistent

delete_named_job-Loses_example :
    Loses
      (λ z. has_name (codes "one") z named.queue.names)
      named.queue
      (delete_named_job (codes "one") named).0.queue
    × ((delete_named_job (codes "one") named).1
        ≡ any (λ (e : Text × ℕ). text_eq e.0 (codes "one")) named.queue.names)
delete_named_job-Loses_example = delete_named_job-Loses (codes "one") named named-IsConsistent

-- The next job of the same description, which has no name, is made.
push_job-takes_example : (job []).name ≢ (job (codes "one")).name
unfolding create_job create_from read_permissions push_job
push_job-takes_example =
    push_job-takes 1 0 out dir (codes "job") (job (codes "one")) (job []) manager refl refl refl
