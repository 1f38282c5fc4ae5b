-- ===== src/Master/WorkerManager/Reaching.antt =====
-- The managers that the calls of WorkerManager (master/worker_manager.cpp) but Shutdown can lead to,
-- in any order.
use prun.Base.{
  ℕ, ◌+◌, ◌≡◌, refl, sym, ap, subst, ◌∙◌, Bool, true, false, ◌||◌, some, List, [], ◌∷◌, Text,
  if◌then◌else◌, arith, Bool-cases, Option-cases, inl, inr,
}
use prun.Base.Int.{ℤ, pos, ltb_ℤ}
use prun.Containers.TextSet
use prun.Master.JobStore.{update, is_in}
use prun.Master.WorkerJob.{WorkerTask}
use prun.Master.Scheduler.{WorkerState, not_avail, ready, exec, disabled}
use prun.Master.WorkerList.{Node}
use prun.Master.WorkerManager.{
  Manager, add_worker_host, add_worker_group, delete_worker_group, delete_worker_host,
  set_worker_ip, all_workers, get_worker_by_ip, on_node_task_completion, get_achieved_task,
  add_command, get_command,
}
use prun.Master.WorkerManager.Pings.{
  is_dropped, check_worker, check_each, tell_scheduler, check_droped_ping_responses, responded,
  on_node_ping_response,
}
use prun.Master.WorkerManager.Counting.{count_host, SameHosts, count_host-same, count_host-Distinct}
use prun.Master.WorkerManager.Thinning.{update-SameHosts}
use prun.Master.WorkerManager.Pinging.{Distinct}
use prun.Master.WorkerManager.Grouping.{one_if}
use prun.Master.WorkerManager.Hosts.{
  IsRegistered, on_host, add_worker_host-IsRegistered, add_worker_group-IsRegistered,
  delete_worker_group-IsRegistered, delete_worker_host-IsRegistered, set_worker_ip-IsRegistered,
}

-- One call
pub data Step (m : Manager) : Manager → Type 0 where
  add_host : (group host : Text) → Step m (add_worker_host group host m)
  add_group : (group : Text) (hosts : List Text) → Step m (add_worker_group group hosts m)
  delete_group : (group : Text) → Step m (delete_worker_group group m)
  delete_host : (host : Text) → Step m (delete_worker_host host m)
  set_ip : (w : ℕ) (ip : Text) → Step m (set_worker_ip w ip m)
  check : Step m (check_droped_ping_responses m)
  response : (ip : Text) (num_cpu memory : ℤ) → Step m (on_node_ping_response ip num_cpu memory m)
  completion : (ip : Text) (job task : ℤ) → Step m (on_node_task_completion ip job task m)
  achieved : {n : Manager} (t : WorkerTask × Text) → get_achieved_task m ≡ some (t, n) → Step m n
  command : (c : ℕ) (ip : Text) → Step m (add_command c ip m)
  taken : {n : Manager} (c : ℕ × Text) → get_command m ≡ some (c, n) → Step m n

pub data Reach (m : Manager) : Manager → Type 0 where
  here : Reach m m
  next : {n o : Manager} → Reach m n → Step n o → Reach m o

-- The same workers are in the groups, and on the same hosts.
abbrev SameWorkers : Manager → Manager → Type 0
SameWorkers m n =
    (n.groups ≡ m.groups) × (n.hosts ≡ m.hosts) × (n.made ≡ m.made) × SameHosts m.node_of n.node_of

SameWorkers-IsRegistered : (m n : Manager) → SameWorkers m n → IsRegistered m → IsRegistered n
SameWorkers-IsRegistered m n (g, h, d, s) r = record {
  listed = λ x.
      count_host-same x m.node_of n.node_of (all_workers n.groups) s
      ∙ ap (λ gs. count_host x m.node_of (all_workers gs)) g
      ∙ r.listed x
      ∙ ap (λ hs. one_if (TextSet.contains x hs)) (sym h);
  below = λ w i. omega (arith, d, r.below w (subst (λ gs. is_in w (all_workers gs) ≡ true) g i));
}

if-SameHosts : (b : Bool) (f g : ℕ → Node) → SameHosts f g → SameHosts f (if b then g else f)
if-SameHosts true f g s = s
if-SameHosts false f g s = λ w. refl

check_worker-SameHosts : (w : ℕ) (m : Manager) → SameHosts m.node_of (check_worker w m).node_of
check_worker-SameHosts w m =
    if-SameHosts (is_dropped w m) m.node_of
      (update m.node_of w (record (m.node_of w) { state = not_avail }))
      (update-SameHosts m.node_of w (record (m.node_of w) { state = not_avail }) refl)

check_each-SameWorkers : (ws : List ℕ) (m : Manager) → SameWorkers m (check_each ws m).0
unfolding check_each
check_each-SameWorkers [] m = (refl, refl, refl, λ w. refl)
check_each-SameWorkers (w ∷ ws) m =
    let (a, b, c, s) = check_each-SameWorkers ws (check_worker w m) in
    (a, b, c, λ v. s v ∙ check_worker-SameHosts w m v)

tell_scheduler-SameWorkers :
    (l : List ℕ) (m n : Manager) → SameWorkers m n → SameWorkers m (tell_scheduler l n)
tell_scheduler-SameWorkers [] m n s = s
tell_scheduler-SameWorkers (w ∷ l) m n s = s

check_droped_ping_responses-SameWorkers :
    (m : Manager) → SameWorkers m (check_droped_ping_responses m)
unfolding check_droped_ping_responses
check_droped_ping_responses-SameWorkers m =
    let l = all_workers m.groups in
    tell_scheduler-SameWorkers (check_each l m).1 m (check_each l m).0 (check_each-SameWorkers l m)

responded-SameWorkers :
    (st : WorkerState) (w : ℕ) (c x : ℤ) (k : ℕ → ℕ) (m : Manager)
    → SameWorkers m (responded st w c x (record m { num_ping = k }))
responded-SameWorkers not_avail w c x k m = (refl, refl, refl, update-SameHosts m.node_of w _ refl)
responded-SameWorkers ready w c x k m = (refl, refl, refl, λ v. refl)
responded-SameWorkers exec w c x k m = (refl, refl, refl, λ v. refl)
responded-SameWorkers disabled w c x k m = (refl, refl, refl, λ v. refl)

on_node_ping_response-SameWorkers :
    (ip : Text) (c x : ℤ) (m : Manager) → SameWorkers m (on_node_ping_response ip c x m)
unfolding on_node_ping_response
on_node_ping_response-SameWorkers ip c x m = elim (Option-cases (get_worker_by_ip ip m)) [
  | inl e ↦ rw (e, on_node_ping_response) (refl, refl, refl, λ v. refl)
  | inr (w, e) ↦
      rw (e, on_node_ping_response)
        (responded-SameWorkers (m.node_of w).state w c x (update m.num_ping w (m.num_ping w + 1)) m)
]

on_node_task_completion-SameWorkers :
    (ip : Text) (job task : ℤ) (m : Manager) → SameWorkers m (on_node_task_completion ip job task m)
unfolding on_node_task_completion
on_node_task_completion-SameWorkers ip job task m =
    elim (Bool-cases (ltb_ℤ job (pos 0) || ltb_ℤ task (pos 0))) [
      | inl e ↦ rw (e, on_node_task_completion) (refl, refl, refl, λ v. refl)
      | inr e ↦ rw (e, on_node_task_completion) (refl, refl, refl, λ v. refl)
    ]

add_command-SameWorkers : (c : ℕ) (ip : Text) (m : Manager) → SameWorkers m (add_command c ip m)
unfolding add_command
add_command-SameWorkers c ip m = (refl, refl, refl, λ v. refl)

get_achieved_task-SameWorkers :
    (t : WorkerTask × Text) (m n : Manager) (l : List (WorkerTask × Text))
    → get_achieved_task (record m { achieved = l }) ≡ some (t, n)
    → SameWorkers m n
unfolding get_achieved_task
get_achieved_task-SameWorkers t m n [] e = absurd (ground arith)
get_achieved_task-SameWorkers t m n (x ∷ l) e =
    let same : record m { achieved = l } ≡ n = cc in
    subst (SameWorkers m) same (refl, refl, refl, λ v. refl)

get_command-SameWorkers :
    (c : ℕ × Text) (m n : Manager) (l : List (ℕ × Text))
    → get_command (record m { commands = l }) ≡ some (c, n)
    → SameWorkers m n
unfolding get_command
get_command-SameWorkers c m n [] e = absurd (ground arith)
get_command-SameWorkers c m n (x ∷ l) e =
    let same : record m { commands = l } ≡ n = cc in
    subst (SameWorkers m) same (refl, refl, refl, λ v. refl)

Step-IsRegistered : {m n : Manager} → Step m n → IsRegistered m → IsRegistered n
Step-IsRegistered {m} (add_host group host) r = add_worker_host-IsRegistered group host m r
Step-IsRegistered {m} (add_group group hosts) r = add_worker_group-IsRegistered group hosts m r
Step-IsRegistered {m} (delete_group group) r = delete_worker_group-IsRegistered group m r
Step-IsRegistered {m} (delete_host host) r = delete_worker_host-IsRegistered host m r
Step-IsRegistered {m} (set_ip w ip) r = set_worker_ip-IsRegistered w ip m r
Step-IsRegistered {m} check r =
    SameWorkers-IsRegistered m _ (check_droped_ping_responses-SameWorkers m) r
Step-IsRegistered {m} (response ip c x) r =
    SameWorkers-IsRegistered m _ (on_node_ping_response-SameWorkers ip c x m) r
Step-IsRegistered {m} (completion ip job task) r =
    SameWorkers-IsRegistered m _ (on_node_task_completion-SameWorkers ip job task m) r
Step-IsRegistered {m} {n} (achieved t e) r =
    SameWorkers-IsRegistered m n (get_achieved_task-SameWorkers t m n m.achieved e) r
Step-IsRegistered {m} (command c ip) r =
    SameWorkers-IsRegistered m _ (add_command-SameWorkers c ip m) r
Step-IsRegistered {m} {n} (taken c e) r =
    SameWorkers-IsRegistered m n (get_command-SameWorkers c m n m.commands e) r

Reach-IsRegistered : {m n : Manager} → Reach m n → IsRegistered m → IsRegistered n
Reach-IsRegistered here r = r
Reach-IsRegistered (next q s) r = Step-IsRegistered s (Reach-IsRegistered q r)

-- Whatever calls but Shutdown come in whatever order to a manager without groups and hosts, a
-- registered host is the host of exactly one worker of exactly one group, a host that is not
-- registered is that of none, and no worker is in the groups twice.
pub Reach-registers :
    (m n : Manager)
    → m.groups ≡ []
    → m.hosts ≡ []
    → Reach m n
    → ((h : Text) → on_host h n ≡ one_if (TextSet.contains h n.hosts))
      × Distinct (all_workers n.groups)
unfolding all_workers is_in count_host TextSet.contains
Reach-registers m n g h q =
    let start : IsRegistered m = record {
      listed = λ x.
          ap (λ gs. count_host x m.node_of (all_workers gs)) g
          ∙ ap (λ s. one_if (TextSet.contains x s)) (sym h);
      below = λ w i.
          let i' = subst (λ gs. is_in w (all_workers gs) ≡ true) g i in absurd (ground arith);
    } in
    let r = Reach-IsRegistered q start in
    (
      r.listed,
      count_host-Distinct n.node_of (all_workers n.groups) (λ x. ground (arith, r.listed x)),
    )
