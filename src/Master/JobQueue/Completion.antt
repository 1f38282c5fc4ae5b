-- ===== src/Master/JobQueue/Completion.antt =====
-- The dependencies of the jobs of a group, over the whole loop of JobGroup::OnJobCompletion.
use prun.Base.{ℕ, suc, ◌+◌, ◌≡◌, zero, true, List, [], ◌∷◌, ◌==◌, arith, Bool-cases, inl, inr}
use prun.Master.JobStore.{Queue}
use prun.Master.JobQueue.{complete_edge, complete_edges, on_job_completion, out_jobs}
use prun.Master.JobQueue.Dependencies.{
  count, IsWaiting, IsResolved, step-IsWaiting, step-IsResolved, IsWaiting-eq, Agree-IsWaiting,
  Agree-IsResolved, complete_edge-Agree,
}

module _ (h : ℕ) where
  -- A job that is resolved stays so while edges of others are completed.
  complete_edges-IsResolved :
      (hs : List ℕ) (q : Queue)
      → count h hs ≡ 0
      → IsResolved h q
      → IsResolved h (complete_edges hs q)
  unfolding complete_edges
  complete_edges-IsResolved [] q c r = r
  complete_edges-IsResolved (x ∷ hs) q c r = elim (Bool-cases (x == h)) [
    | inl e ↦ absurd (ground arith)
    | inr e ↦
        complete_edges-IsResolved hs (complete_edge x q) (ground arith)
          (Agree-IsResolved h q (complete_edge x q) (complete_edge-Agree x h q e) r)
  ]

  -- A job that waits for more edges than are completed here still waits for the others.
  complete_edges-IsWaiting :
      (n : ℕ) (hs : List ℕ) (q : Queue)
      → IsWaiting (suc n + count h hs) h q
      → IsWaiting (suc n) h (complete_edges hs q)
  unfolding complete_edges
  complete_edges-IsWaiting n [] q w = IsWaiting-eq (suc n + 0) (suc n) h q (omega arith) w
  complete_edges-IsWaiting n (x ∷ hs) q w =
      complete_edges-IsWaiting n hs (complete_edge x q) (elim (Bool-cases (x == h)) [
        | inl e ↦
            IsWaiting-eq (suc (n + count h hs)) (suc n + count h hs) h (complete_edge x q)
              (omega arith)
              (step-IsWaiting (n + count h hs) x h q e (
                IsWaiting-eq (suc n + count h (x ∷ hs)) (suc (suc (n + count h hs))) h q
                  (ground arith) w))
        | inr e ↦
            Agree-IsWaiting (suc n + count h hs) h q (complete_edge x q)
              (complete_edge-Agree x h q e)
              (IsWaiting-eq (suc n + count h (x ∷ hs)) (suc n + count h hs) h q (ground arith) w)
      ])

  complete_edges-released :
      (n x : ℕ) (hs : List ℕ) (q : Queue)
      → (x == h) ≡ true
      → count h hs ≡ n
      → IsWaiting (suc n) h q
      → ((m : ℕ) (r : Queue)
          → count h hs ≡ suc m
          → IsWaiting (suc m) h r
          → IsResolved h (complete_edges hs r))
      → IsResolved h (complete_edges hs (complete_edge x q))
  complete_edges-released zero x hs q e c w k =
      complete_edges-IsResolved hs (complete_edge x q) c (step-IsResolved x h q e w)
  complete_edges-released (suc n) x hs q e c w k =
      k n (complete_edge x q) c (step-IsWaiting n x h q e w)

  -- A job that waits for as many edges as are completed here, at least one, leaves the delayed jobs
  -- for the heap.
  complete_edges_last-IsResolved :
      (n : ℕ) (hs : List ℕ) (q : Queue)
      → count h hs ≡ suc n
      → IsWaiting (suc n) h q
      → IsResolved h (complete_edges hs q)
  unfolding complete_edges
  complete_edges_last-IsResolved n [] q c w = absurd (ground arith)
  complete_edges_last-IsResolved n (x ∷ hs) q c w = elim (Bool-cases (x == h)) [
    | inl e ↦
        complete_edges-released n x hs q e (ground arith) w
          (λ m r. complete_edges_last-IsResolved m hs r)
    | inr e ↦
        complete_edges_last-IsResolved n hs (complete_edge x q) (ground arith)
          (Agree-IsWaiting (suc n) h q (complete_edge x q) (complete_edge-Agree x h q e) w)
  ]

  -- The edges of a group's graph from a vertex to this job
  abbrev pub num_edges : ℕ → ℕ → Queue → ℕ
  num_edges k v q = count h (out_jobs v (q.group_of k).edges (q.group_of k).index_to_job)

  -- When a job is completed or deleted, a job that waits for more edges than lead to it from the
  -- vertex of that one stays among the delayed jobs, and waits for as many fewer.
  pub on_job_completion-IsWaiting :
      (n k v : ℕ) (q : Queue)
      → IsWaiting (suc n + num_edges k v q) h q
      → IsWaiting (suc n) h (on_job_completion k v q).0
  unfolding on_job_completion
  on_job_completion-IsWaiting n k v q w =
      complete_edges-IsWaiting n (out_jobs v (q.group_of k).edges (q.group_of k).index_to_job) q w

  -- When a job is completed or deleted, a job that waits for just the edges that lead to it from
  -- the vertex of that one, at least one, leaves the delayed jobs and is in the heap.
  pub on_job_completion-IsResolved :
      (n k v : ℕ) (q : Queue)
      → num_edges k v q ≡ suc n
      → IsWaiting (suc n) h q
      → IsResolved h (on_job_completion k v q).0
  unfolding on_job_completion
  on_job_completion-IsResolved n k v q c w =
      complete_edges_last-IsResolved n (out_jobs v (q.group_of k).edges (q.group_of k).index_to_job)
        q c w
