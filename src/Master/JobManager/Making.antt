-- ===== src/Master/JobManager/Making.antt =====
-- What CreateMetaJob makes (master/job_manager.cpp): the parts of its result.
use prun.Base.{
  ℕ, suc, ◌≡◌, refl, sym, ap, subst, ◌∙◌, Bool, true, false, not, some, List, [], ◌∷◌, Text, codes,
  length, arith,
}
use prun.Containers.TextSet.{TextSet}
use prun.Master.JobManager.Descriptions.{Outside, NewJob, guard, from_dir, create_job, read_cron}
use prun.Master.JobManager.Graphs.{
  MetaJob, meta_name, join_lines, job_files, create_each, all_edges, has_cycle, set_vertices,
  prepare_job_graph, describe_first, create_meta_job,
}
use prun.Master.JobManager.Cycles.{bind_some}

guard-true : (b : Bool) {u : Unit {0}} → guard b ≡ some u → b ≡ true
guard-true true h = refl
guard-true false h = absurd (ground arith)

length-create_each :
    (out : Outside) (dir : Text) (names : TextSet) (check : Bool) (fs : List Text)
    (js : List NewJob)
    → create_each out dir names check fs ≡ some js
    → length js ≡ length fs
unfolding create_each
length-create_each out dir names check [] js h = let e : [] ≡ js = cc in ap length (sym e)
length-create_each out dir names check (f ∷ fs) js h =
    let (t, _, h1) = bind_some (out.read_file (from_dir dir f)) _ h in
    let (j, _, h2) = bind_some (create_job out dir names (join_lines t) check) _ h1 in
    let (rest, r, h3) = bind_some (create_each out dir names check fs) _ h2 in
    let e : j ∷ rest ≡ js = cc in
    ap length (sym e) ∙ ap suc (length-create_each out dir names check fs rest r)

pub length-set_vertices :
    (i : ℕ) (es : List (ℕ × ℕ)) (js : List NewJob) → length (set_vertices i es js) ≡ length js
unfolding set_vertices
length-set_vertices i es [] = refl
length-set_vertices i es (j ∷ js) = ap suc (length-set_vertices (suc i) es js)

length-describe_first : (d : Text) (js : List NewJob) → length (describe_first d js) ≡ length js
length-describe_first d [] = refl
length-describe_first d (j ∷ js) = refl

-- The adjacency lists and the jobs from which a meta job is made
pub record MadeFrom (out : Outside) (mj : MetaJob) : Type 0 where
  pub lists : List (List Text)
  pub created : List NewJob
  pub has_edges : all_edges (job_files lists []) lists ≡ some mj.edges
  pub no_cycle : has_cycle (out.back_edges mj.edges) false ≡ false
  pub has_jobs : mj.jobs ≡ set_vertices 0 mj.edges created
  pub same_length : length created ≡ length (job_files lists [])

pub create_meta_job-MadeFrom :
    (out : Outside) (dir : Text) (names : TextSet) (text : Text) (check : Bool) (mj : MetaJob)
    → create_meta_job out dir names text check ≡ some mj
    → MadeFrom out mj
unfolding create_meta_job prepare_job_graph
create_meta_job-MadeFrom out dir names text check mj h =
    let (t, _, h1) = bind_some (out.read_json text) _ h in
    let (lists, _, h2) = bind_some (t.get_lists (codes "graph")) _ h1 in
    let (cron, _, h3) = bind_some (read_cron out t) _ h2 in
    let (name, _, h4) = bind_some (meta_name t names check) _ h3 in
    let (js, c, h5) = bind_some (create_each out dir names check (job_files lists [])) _ h4 in
    let (made, p, h6) =
      bind_some (prepare_job_graph out lists (job_files lists []) (describe_first text js)) _ h5 in
    let (es, a, p1) = bind_some (all_edges (job_files lists []) lists) _ p in
    let (_, g, p2) = bind_some (guard (not (has_cycle (out.back_edges es) false))) _ p1 in
    let b = guard-true (not (has_cycle (out.back_edges es) false)) g in
    let e : (es ≡ mj.edges) × (set_vertices 0 es (describe_first text js) ≡ mj.jobs) =
      ground (arith, p2, h6) in
    record {
      lists = lists;
      created = describe_first text js;
      has_edges = a ∙ ap some e.0;
      no_cycle = subst (λ x. has_cycle (out.back_edges x) false ≡ false) e.0 (ground arith);
      has_jobs = sym e.1 ∙ ap (λ x. set_vertices 0 x (describe_first text js)) e.0;
      same_length =
          length-describe_first text js
          ∙ length-create_each out dir names check (job_files lists []) js c;
    }
