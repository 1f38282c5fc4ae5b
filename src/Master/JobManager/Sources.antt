-- ===== src/Master/JobManager/Sources.antt =====
-- The meta jobs that CreateMetaJob makes (master/job_manager.cpp): their dependencies are the edges
-- of a graph without a cycle.
use prun.Base.{
  ℕ, suc, zero, ◌+◌, ◌≤◌, ◌<◌, ◌≡◌, refl, sym, ap, subst, ◌∙◌, Bool, true, false, some, List, [],
  ◌∷◌, Text, ltb, length, arith,
}
use prun.Base.Int.{pos}
use prun.Containers.TextSet.{TextSet}
use prun.Master.JobQueue.{get_elem?}
use prun.Master.JobManager.Descriptions.{Outside, NewJob}
use prun.Master.JobManager.Graphs.{
  MetaJob, job_files, in_degree, num_vertices, set_vertex, set_vertices, create_meta_job,
}
use prun.Master.JobManager.Cycles.{
  FindsCycles, Within, no_back_edges, job_files-AreFiles, all_edges-Within, open_degree, ready,
}
use prun.Master.JobManager.Making.{MadeFrom, create_meta_job-MadeFrom, length-set_vertices}
use prun.Master.JobManager.Files.{all_edges-covers}

-- The job at a vertex knows its vertex and its group, and waits for the edges that lead to it.
abbrev pub IsAt : ℕ → List (ℕ × ℕ) → NewJob → Type 0
IsAt v es j = (j.vertex ≡ v) × (j.num_depends ≡ pos (in_degree v es)) × (j.in_group ≡ true)

IsAt-eq : (v w : ℕ) (es : List (ℕ × ℕ)) (j : NewJob) → v ≡ w → IsAt v es j → IsAt w es j
IsAt-eq v w es j e h = subst (λ x. IsAt x es j) e h

set_vertices-IsAt :
    (i k : ℕ) (es : List (ℕ × ℕ)) (js : List NewJob) (j : NewJob)
    → i + length js ≤ num_vertices es
    → get_elem? (set_vertices i es js) k ≡ some j
    → IsAt (i + k) es j
unfolding set_vertices
set_vertices-IsAt i k es [] j l h = absurd (ground arith)
set_vertices-IsAt i zero es (x ∷ js) j l h =
    let b : ltb i (num_vertices es) ≡ true = ground arith in
    let e : set_vertex i es x ≡ j = ground arith in
    IsAt-eq i (i + 0) es j (omega arith) (subst (IsAt i es) e (refl, refl, refl))
set_vertices-IsAt i (suc k) es (x ∷ js) j l h =
    IsAt-eq (suc i + k) (i + suc k) es j (omega arith)
      (set_vertices-IsAt (suc i) k es js j (omega arith) h)

covered : (n m : ℕ) → ((v : ℕ) → v < n → v < m) → n ≤ m
covered zero m h = omega arith
covered (suc n) m h = omega (arith, h n (omega arith))

made-Within : (out : Outside) (mj : MetaJob) → MadeFrom out mj → Within (length mj.jobs) mj.edges
made-Within out mj m =
    let e : length (job_files m.lists []) ≡ length mj.jobs =
      sym m.same_length
      ∙ sym (length-set_vertices 0 mj.edges m.created)
      ∙ ap length (sym m.has_jobs) in
    subst (λ n. Within n mj.edges) e
      (all_edges-Within (job_files m.lists []) m.lists mj.edges m.has_edges
        (job_files-AreFiles m.lists []))

-- The edges of a meta job that CreateMetaJob makes lead between its jobs, and each job knows its
-- own vertex and its group and waits for exactly the edges that lead to it.
pub create_meta_job-IsAt :
    (out : Outside) (dir : Text) (names : TextSet) (text : Text) (check : Bool) (mj : MetaJob)
    → create_meta_job out dir names text check ≡ some mj
    → Within (length mj.jobs) mj.edges
      × ((v : ℕ) (j : NewJob) → get_elem? mj.jobs v ≡ some j → IsAt v mj.edges j)
create_meta_job-IsAt out dir names text check mj h =
    let m = create_meta_job-MadeFrom out dir names text check mj h in
    let c : length m.created ≤ num_vertices mj.edges =
      covered (length m.created) (num_vertices mj.edges) (λ v l.
        all_edges-covers m.lists mj.edges v m.has_edges (subst (λ n. v < n) m.same_length l)) in
    (
      made-Within out mj m,
      λ v j g. IsAt-eq (0 + v) v mj.edges j (omega arith) (
          set_vertices-IsAt 0 v mj.edges m.created j (omega arith)
            (subst (λ js. get_elem? js v ≡ some j) m.has_jobs g)),
    )

-- If depth_first_search finds the graphs with cycles, then of a meta job that CreateMetaJob makes,
-- however many of the jobs are done, if one is not, there is one that is not done and to which no
-- edge leads from one that is not done.
pub create_meta_job-ready :
    (out : Outside) (dir : Text) (names : TextSet) (text : Text) (check : Bool) (mj : MetaJob)
    (done : ℕ → Bool) (v : ℕ)
    → FindsCycles out
    → create_meta_job out dir names text check ≡ some mj
    → v < length mj.jobs
    → done v ≡ false
    → (u : ℕ) × (u < length mj.jobs) × (done u ≡ false) × (open_degree done u mj.edges ≡ 0)
create_meta_job-ready out dir names text check mj done v f h l d =
    let m = create_meta_job-MadeFrom out dir names text check mj h in
    ready done (length mj.jobs) v mj.edges
      (f mj.edges (no_back_edges (out.back_edges mj.edges) m.no_cycle)) (made-Within out mj m) l d
