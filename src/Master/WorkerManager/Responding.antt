-- ===== src/Master/WorkerManager/Responding.antt =====
-- Workers that respond to pings, and workers that do not (WorkerManager of
-- master/worker_manager.cpp): OnNodePingResponse between the checks.
use prun.Base.{
  ℕ, ◌+◌, ◌≡◌, ◌≢◌, refl, sym, ap, subst, ◌∙◌, true, false, ◌&&◌, some, Text, ltb, arith,
}
use prun.Base.Int.{ℤ}
use prun.Master.JobStore.{update, update_self, is_in}
use prun.Master.Scheduler.{WorkerState, not_avail, ready, exec, disabled, is_available}
use prun.Master.WorkerList.{Node}
use prun.Master.WorkerManager.{Manager, all_workers, get_worker_by_ip}
use prun.Master.WorkerManager.Pings.{
  check_each, check_droped_ping_responses, on_node_ping_response, responded,
}
use prun.Master.WorkerManager.Pinging.{
  Distinct, state, check_each-Checks, groups-check_each, tell_scheduler_same, is_available-checked,
}

-- What a check makes of a worker, without what the scheduler is told
state-check_droped_ping_responses :
    (w : ℕ) (m : Manager)
    → Distinct (all_workers m.groups)
    → is_in w (all_workers m.groups) ≡ true
    → let n = check_droped_ping_responses m in
      (is_available (state w n) ≡ (is_available (state w m) && ltb 0 (m.num_ping w)))
      × (n.num_ping w ≡ 0)
      × (n.groups ≡ m.groups)
unfolding check_droped_ping_responses
state-check_droped_ping_responses w m d e =
    let l = all_workers m.groups in
    let (a, b, _) = check_each-Checks l w m d e in
    let (s, p, g) = tell_scheduler_same (check_each l m).1 (check_each l m).0 in
    (
      ap (λ (f : ℕ → Node). is_available (f w).state) s
          ∙ ap is_available a
          ∙ is_available-checked w m,
      ap (λ (f : ℕ → ℕ). f w) p ∙ b,
      g ∙ groups-check_each l m,
    )

responded_lem :
    (st : WorkerState) (w : ℕ) (num_cpu memory : ℤ) (m : Manager)
    → state w m ≡ st
    → st ≢ disabled
    → let n = responded st w num_cpu memory m in
      (is_available (state w n) ≡ true) × (n.num_ping w ≡ m.num_ping w) × (n.groups ≡ m.groups)
unfolding is_available
responded_lem not_avail w num_cpu memory m e d =
    (ap (λ (n : Node). is_available n.state) (update_self m.node_of w _), refl, refl)
responded_lem ready w num_cpu memory m e d = (ap is_available e, refl, refl)
responded_lem exec w num_cpu memory m e d = (ap is_available e, refl, refl)
responded_lem disabled w num_cpu memory m e d = absurd (d refl)

state-on_node_ping_response :
    (ip : Text) (num_cpu memory : ℤ) (w : ℕ) (m : Manager)
    → get_worker_by_ip ip m ≡ some w
    → state w m ≢ disabled
    → let n = on_node_ping_response ip num_cpu memory m in
      (is_available (state w n) ≡ true) × (n.num_ping w ≡ m.num_ping w + 1) × (n.groups ≡ m.groups)
unfolding on_node_ping_response
state-on_node_ping_response ip num_cpu memory w m g d =
    let m' : Manager = record m { num_ping = update m.num_ping w (m.num_ping w + 1) } in
    let (a, b, c) = responded_lem (state w m) w num_cpu memory m' refl d in
    rw (g, on_node_ping_response) (a, b ∙ update_self m.num_ping w (m.num_ping w + 1), c)

-- If no worker is in the groups twice, a worker of a group that is not disabled, and whose IP leads
-- to it, is available after it has responded, and also after the next CheckDropedPingResponses.
pub on_node_ping_response-stays :
    (ip : Text) (num_cpu memory : ℤ) (w : ℕ) (m : Manager)
    → Distinct (all_workers m.groups)
    → is_in w (all_workers m.groups) ≡ true
    → get_worker_by_ip ip m ≡ some w
    → state w m ≢ disabled
    → let n = on_node_ping_response ip num_cpu memory m in
      (is_available (state w n) ≡ true)
      × (is_available (state w (check_droped_ping_responses n)) ≡ true)
on_node_ping_response-stays ip num_cpu memory w m d e g s =
    let n = on_node_ping_response ip num_cpu memory m in
    let (a, b, c) = state-on_node_ping_response ip num_cpu memory w m g s in
    let (t, _, _) =
      state-check_droped_ping_responses w n (subst (λ x. Distinct (all_workers x)) (sym c) d)
        (subst (λ x. is_in w (all_workers x) ≡ true) (sym c) e) in
    (a, t ∙ ground arith)

-- If no worker is in the groups twice, two calls of CheckDropedPingResponses without a response
-- between them leave no worker of a group available.
pub check_droped_ping_responses-silent :
    (w : ℕ) (m : Manager)
    → Distinct (all_workers m.groups)
    → is_in w (all_workers m.groups) ≡ true
    → is_available (state w (check_droped_ping_responses (check_droped_ping_responses m))) ≡ false
check_droped_ping_responses-silent w m d e =
    let n = check_droped_ping_responses m in
    let (a, b, c) = state-check_droped_ping_responses w m d e in
    let (t, _, _) =
      state-check_droped_ping_responses w n (subst (λ x. Distinct (all_workers x)) (sym c) d)
        (subst (λ x. is_in w (all_workers x) ≡ true) (sym c) e) in
    t ∙ ground arith
