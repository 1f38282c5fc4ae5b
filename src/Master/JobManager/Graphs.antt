-- ===== src/Master/JobManager/Graphs.antt =====
-- The meta jobs of JobManager (master/job_manager.cpp): CreateMetaJob and PrepareJobGraph.
use prun.Base.{
  ℕ, suc, Bool, true, false, not, ◌&&◌, Option, none, some, List, [], ◌∷◌, ◌++◌, Text, text_eq,
  codes, ltb, ◌==◌, if◌then◌else◌, max,
}
use prun.Base.Int.{pos}
use prun.Containers.TextSet.{TextSet}
use prun.Containers.TextMap.{text_ltb}
use prun.Master.JobManager.Descriptions.{
  Ptree, Outside, NewJob, ◌>>=◌, ◌>>◌, guard, if_given, read_cron, create_job, has_job_name,
  from_dir,
}

-- What CreateMetaJob makes: the group's fields and its jobs, in the order of indexToJob
pub record MetaJob : Type 0 where
  pub name : Text
  pub description : Text
  pub has_cron : Bool
  pub edges : List (ℕ × ℕ)
  pub jobs : List NewJob

-- jobFiles is a set in this order, as the order is that of the jobs' vertices and ids.
unfoldable pub insert_file : Text → List Text → List Text
unfolding text_ltb
insert_file f [] = f ∷ []
insert_file f (g ∷ gs) =
    let rest = insert_file f gs in
    if text_eq f g then g ∷ gs else (if text_ltb f g then f ∷ g ∷ gs else g ∷ rest)

unfoldable pub insert_all : List Text → List Text → List Text
unfolding insert_file
insert_all [] s = s
insert_all (f ∷ fs) s = insert_all fs (insert_file f s)

unfoldable pub job_files : List (List Text) → List Text → List Text
unfolding insert_all
job_files [] s = s
job_files (l ∷ ls) s = job_files ls (insert_all l s)

-- jobFileToIndex[ job ]; each file of the graph is there.
unfoldable pub index_of : Text → List Text → ℕ
index_of f [] = 0
index_of f (g ∷ gs) = if text_eq g f then 0 else suc (index_of f gs)

-- getline without its newlines, joined
unfoldable pub join_lines : Text → Text
join_lines [] = []
join_lines (c ∷ cs) = let rest = join_lines cs in if c == b'\n' then rest else c ∷ rest

-- The loop over the job files
unfoldable pub create_each : Outside → Text → TextSet → Bool → List Text → Option (List NewJob)
unfolding create_job join_lines
create_each out dir names check [] = some []
create_each out dir names check (f ∷ fs) = do
  text ← out.read_file (from_dir dir f)
  j ← create_job out dir names (join_lines text) check
  js ← create_each out dir names check fs
  some (j ∷ js)

-- The edges between the neighbours in an adjacency list, behind its first job
unfoldable pub chain : List Text → ℕ → List Text → List (ℕ × ℕ)
unfolding index_of
chain files v [] = []
chain files v (f ∷ fs) = (v, index_of f files) ∷ chain files (index_of f files) fs

-- The edges of one adjacency list, which must have two jobs
unfoldable pub list_edges : List Text → List Text → Option (List (ℕ × ℕ))
unfolding chain
list_edges files [] = none
list_edges files (f ∷ []) = none
list_edges files (f ∷ g ∷ gs) = some (chain files (index_of f files) (g ∷ gs))

unfoldable pub all_edges : List Text → List (List Text) → Option (List (ℕ × ℕ))
unfolding list_edges
all_edges files [] = some []
all_edges files (l ∷ ls) = do es ← list_edges files l; rest ← all_edges files ls; some (es ++ rest)

-- cycle_detector: back_edge sets the flag.
unfoldable pub has_cycle : List (ℕ × ℕ) → Bool → Bool
has_cycle [] flag = flag
has_cycle (e ∷ es) flag = has_cycle es true

-- in_degree
unfoldable pub in_degree : ℕ → List (ℕ × ℕ) → ℕ
in_degree v [] = 0
in_degree v ((a, b) ∷ es) = if b == v then suc (in_degree v es) else in_degree v es

-- num_vertices: add_edge adds the vertices up to the ends of the edge.
unfoldable pub num_vertices : List (ℕ × ℕ) → ℕ
num_vertices [] = 0
num_vertices ((a, b) ∷ es) = max (suc (max a b)) (num_vertices es)

-- The body of the loop over the vertices
abbrev pub set_vertex : ℕ → List (ℕ × ℕ) → NewJob → NewJob
set_vertex i es j = record j { vertex = i; num_depends = pos (in_degree i es); in_group = true }

-- That loop, from vertex `i`, the first of the jobs, on
unfoldable pub set_vertices : ℕ → List (ℕ × ℕ) → List NewJob → List NewJob
unfolding in_degree num_vertices
set_vertices i es [] = []
set_vertices i es (j ∷ js) =
    (if ltb i (num_vertices es) then set_vertex i es j else j) ∷ set_vertices (suc i) es js

-- PrepareJobGraph: the graph's edges and the jobs, or nothing when it returns false
unfoldable pub prepare_job_graph :
    Outside → List (List Text) → List Text → List NewJob → Option (List (ℕ × ℕ) × List NewJob)
unfolding all_edges has_cycle set_vertices
prepare_job_graph out lists files js = do
  es ← all_edges files lists
  guard (not (has_cycle (out.back_edges es) false))
  some (es, set_vertices 0 es js)

-- The first job has the description of the meta job.
abbrev pub describe_first : Text → List NewJob → List NewJob
describe_first d [] = []
describe_first d (j ∷ js) = record j { description = d } ∷ js

-- The group's name
abbrev pub meta_name : Ptree → TextSet → Bool → Option Text
meta_name t names check =
    if_given t (codes "name")
      (t.get_text (codes "name") >>= λ n. guard (not (check && has_job_name n names)) >> some n) []

-- CreateMetaJob
unfoldable pub create_meta_job : Outside → Text → TextSet → Text → Bool → Option MetaJob
unfolding job_files create_each prepare_job_graph
create_meta_job out dir names text check = do
  t ← out.read_json text
  lists ← t.get_lists (codes "graph")
  let files = job_files lists []
  cron ← read_cron out t
  name ← meta_name t names check
  js ← create_each out dir names check files
  made ← prepare_job_graph out lists files (describe_first text js)
  some (record {
    name = name;
    description = if cron then text else [];
    has_cron = cron;
    edges = made.0;
    jobs = made.1;
  })
