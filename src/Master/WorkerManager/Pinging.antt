-- ===== src/Master/WorkerManager/Pinging.antt =====
-- The responses to pings and their check (WorkerManager of master/worker_manager.cpp).
use prun.Base.{
  ℕ, ◌≡◌, refl, sym, ap, subst, ◌∙◌, Bool, true, false, not, ◌&&◌, ◌||◌, List, [], ◌∷◌, ◌++◌, any,
  ltb, ◌==◌, if◌then◌else◌, arith, Bool-cases, inl, inr,
}
use prun.Master.JobStore.{update, is_in}
use prun.Master.Scheduler.{WorkerState, not_avail, ready, exec, disabled, is_available}
use prun.Master.WorkerList.{Node}
use prun.Master.WorkerManager.{
  Call, state_changed, host_appeared, task_completion, command_added, Manager, all_workers,
}
use prun.Master.WorkerManager.Pings.{
  drops, is_dropped, check_worker, check_each, check_droped_ping_responses, tell_scheduler,
}

-- No worker twice
abbrev pub Distinct : List ℕ → Type 0
Distinct [] = Unit
Distinct (w ∷ ws) = (is_in w ws ≡ false) × Distinct ws

abbrev pub state : ℕ → Manager → WorkerState
state w m = (m.node_of w).state

drops_lem : (s : WorkerState) → drops s ≡ is_available s
unfolding is_available
drops_lem not_avail = refl
drops_lem ready = refl
drops_lem exec = refl
drops_lem disabled = refl

if_at : (d : Bool) (f g : ℕ → Node) (w : ℕ) → (if d then f else g) w ≡ (if d then f w else g w)
if_at true f g w = refl
if_at false f g w = refl

two_ifs :
    (d e : Bool) (n o : Node)
    → (if d then (if e then n else o) else o).state ≡ (if e && d then n.state else o.state)
two_ifs true true n o = refl
two_ifs true false n o = refl
two_ifs false true n o = refl
two_ifs false false n o = refl

-- What the check of one worker leaves of the state of another or of this one
state-check_worker :
    (v w : ℕ) (m : Manager)
    → state w (check_worker v m) ≡ (if v == w && is_dropped v m then not_avail else state w m)
unfolding update
state-check_worker v w m =
    let n : Node = record (m.node_of v) { state = not_avail } in
    ap (λ (n : Node). n.state) (if_at (is_dropped v m) (update m.node_of v n) m.node_of w)
    ∙ two_ifs (is_dropped v m) (v == w) n (m.node_of w)

num_ping-check_worker :
    (v w : ℕ) (m : Manager) → (check_worker v m).num_ping w ≡ (if v == w then 0 else m.num_ping w)
unfolding update
num_ping-check_worker v w m = refl

-- What the check makes of a worker's state
abbrev pub checked : ℕ → Manager → WorkerState
checked w m = if is_dropped w m then not_avail else state w m

-- A worker that is not among those that are checked
check_each_other :
    (ws : List ℕ) (w : ℕ) (m : Manager)
    → is_in w ws ≡ false
    → (state w (check_each ws m).0 ≡ state w m)
      × ((check_each ws m).0.num_ping w ≡ m.num_ping w)
      × (is_in w (check_each ws m).1 ≡ false)
unfolding check_each is_in
check_each_other [] w m e = (refl, refl, refl)
check_each_other (v ∷ ws) w m e =
    let (a, b, c) = check_each_other ws w (check_worker v m) (ground arith) in
    let s = state-check_worker v w m in
    let n = num_ping-check_worker v w m in (ground arith, ground arith, ground arith)

-- What the check makes of a worker
abbrev Checks : ℕ → Manager → Manager → List ℕ → Type 0
Checks w m n changed =
    (state w n ≡ checked w m) × (n.num_ping w ≡ 0) × (is_in w changed ≡ is_dropped w m)

is_in-if :
    (b : Bool) (v w : ℕ) (l : List ℕ)
    → is_in w (if b then v ∷ l else l) ≡ ((b && v == w) || is_in w l)
unfolding is_in
is_in-if true v w l = refl
is_in-if false v w l = refl

same_checked :
    (v w : ℕ) (m : Manager)
    → (v == w) ≡ false
    → (checked w (check_worker v m) ≡ checked w m)
      × (is_dropped w (check_worker v m) ≡ is_dropped w m)
same_checked v w m e =
    let s : state w (check_worker v m) ≡ state w m = state-check_worker v w m ∙ ground arith in
    let n : (check_worker v m).num_ping w ≡ m.num_ping w =
      num_ping-check_worker v w m ∙ ground arith in
    let d : is_dropped w (check_worker v m) ≡ is_dropped w m =
      ap (λ k. if k == 0 then drops (state w (check_worker v m)) else false) n
      ∙ ap (λ x. if m.num_ping w == 0 then drops x else false) s in
    (ground arith, d)

check_each_first-Checks :
    (v : ℕ) (ws : List ℕ) (m : Manager)
    → is_in v ws ≡ false
    → Checks v m (check_each (v ∷ ws) m).0 (check_each (v ∷ ws) m).1
unfolding check_each
check_each_first-Checks v ws m e =
    let (a, b, c) = check_each_other ws v (check_worker v m) e in
    let s = state-check_worker v v m in
    let n = num_ping-check_worker v v m in
    (a ∙ s ∙ ground arith, b ∙ n ∙ ground arith, is_in-if (is_dropped v m) v v _ ∙ ground arith)

pub check_each-Checks :
    (ws : List ℕ) (w : ℕ) (m : Manager)
    → Distinct ws
    → is_in w ws ≡ true
    → Checks w m (check_each ws m).0 (check_each ws m).1
unfolding check_each is_in
check_each-Checks [] w m d e = absurd (ground arith)
check_each-Checks (v ∷ ws) w m d e = elim (Bool-cases (v == w)) [
  | inl t ↦
      let f : v ≡ w = ground arith in
      subst (λ x. Checks x m (check_each (v ∷ ws) m).0 (check_each (v ∷ ws) m).1) f
        (check_each_first-Checks v ws m d.0)
  | inr t ↦
      let (a, b, c) = check_each-Checks ws w (check_worker v m) d.1 (ground arith) in
      let (s, r) = same_checked v w m t in
      (a ∙ s, b, is_in-if (is_dropped v m) v w _ ∙ ground arith)
]

pub tell_scheduler_same :
    (l : List ℕ) (m : Manager)
    → ((tell_scheduler l m).node_of ≡ m.node_of)
      × ((tell_scheduler l m).num_ping ≡ m.num_ping)
      × ((tell_scheduler l m).groups ≡ m.groups)
tell_scheduler_same [] m = (refl, refl, refl)
tell_scheduler_same (w ∷ ws) m = (refl, refl, refl)

pub is_available-checked :
    (w : ℕ) (m : Manager)
    → is_available (checked w m) ≡ (is_available (state w m) && ltb 0 (m.num_ping w))
unfolding is_available
is_available-checked w m = ground (arith, drops_lem (state w m))

is_dropped_lem :
    (w : ℕ) (m : Manager)
    → is_dropped w m
      ≡ (is_available (state w m) && not (is_available (state w m) && ltb 0 (m.num_ping w)))
is_dropped_lem w m = ground (arith, drops_lem (state w m))

-- Whether a call tells the scheduler that the state of this worker has changed
abbrev tells : ℕ → Call → Bool
tells w (state_changed ws) = is_in w ws
tells w (host_appeared v) = false
tells w task_completion = false
tells w command_added = false

-- Whether the scheduler has been told so
unfoldable pub is_told : ℕ → List Call → Bool
unfolding is_in
is_told w cs = any (tells w) cs

is_told-append :
    (w : ℕ) (cs : List Call) (c : Call) → is_told w (cs ++ c ∷ []) ≡ (is_told w cs || tells w c)
unfolding is_told
is_told-append w [] c = ground arith
is_told-append w (d ∷ cs) c = ground (arith, is_told-append w cs c)

is_told-tell_scheduler :
    (w : ℕ) (l : List ℕ) (m : Manager)
    → is_told w (tell_scheduler l m).calls ≡ (is_told w m.calls || is_in w l)
unfolding is_in
is_told-tell_scheduler w [] m = ground arith
is_told-tell_scheduler w (v ∷ l) m = is_told-append w m.calls (state_changed (v ∷ l))

pub groups-check_each : (ws : List ℕ) (m : Manager) → (check_each ws m).0.groups ≡ m.groups
unfolding check_each
groups-check_each [] m = refl
groups-check_each (w ∷ ws) m = groups-check_each ws (check_worker w m)

calls-check_each : (ws : List ℕ) (m : Manager) → (check_each ws m).0.calls ≡ m.calls
unfolding check_each
calls-check_each [] m = refl
calls-check_each (w ∷ ws) m = calls-check_each ws (check_worker w m)

-- If no worker is in the groups twice, then after CheckDropedPingResponses a worker of a group is
-- available exactly if it was and has responded since the last check, and its count starts again;
-- and if the scheduler has not been told of it before, it is told exactly if the worker was
-- available and is not any more.
pub check_droped_ping_responses-checks :
    (w : ℕ) (m : Manager)
    → Distinct (all_workers m.groups)
    → is_in w (all_workers m.groups) ≡ true
    → is_told w m.calls ≡ false
    → let n = check_droped_ping_responses m in
      (is_available (state w n) ≡ (is_available (state w m) && ltb 0 (m.num_ping w)))
      × (n.num_ping w ≡ 0)
      × (is_told w n.calls ≡ (is_available (state w m) && not (is_available (state w n))))
unfolding check_droped_ping_responses
check_droped_ping_responses-checks w m d e o =
    let l = all_workers m.groups in
    let changed = (check_each l m).1 in
    let (a, b, c) = check_each-Checks l w m d e in
    let (s, p, _) = tell_scheduler_same changed (check_each l m).0 in
    let t = ap (λ (f : ℕ → Node). (f w).state) s ∙ a in
    let v = ap is_available t ∙ is_available-checked w m in
    (
      v,
      ap (λ (f : ℕ → ℕ). f w) p ∙ b,
      is_told-tell_scheduler w changed (check_each l m).0
          ∙ ap (λ b. b || is_in w changed) (ap (is_told w) (calls-check_each l m) ∙ o)
          ∙ c
          ∙ is_dropped_lem w m
          ∙ ap (λ x. is_available (state w m) && not x) (sym v),
    )
