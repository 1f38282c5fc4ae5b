-- ===== src/Master/WorkerManager/Grouping.antt =====
-- The workers of all groups of WorkerManager (master/worker_manager.cpp), when a worker comes in,
-- when a group goes, and when each group is changed.
use prun.Base.{
  ℕ, ◌+◌, ◌≡◌, refl, sym, ap, ◌∙◌, Bool, true, false, ◌&&◌, ◌||◌, some, List, [], ◌∷◌, ◌++◌, Text,
  text_eq, ltb, ◌==◌, if◌then◌else◌, arith, Bool-cases, inl, inr,
}
use prun.Containers.TextSet
use prun.Containers.TextSet.{TextSet}
use prun.Containers.TextMap
use prun.Containers.TextMap.{TextMap, text_ltb}
use prun.Master.JobStore.{is_in}
use prun.Master.WorkerList.{Node, WorkerList}
use prun.Master.WorkerManager.{
  Members, no_members, add_member, erase_hosts, each_group, all_workers,
}
use prun.Master.WorkerManager.Counting.{
  count_host, SameHosts, count_host-same, count_host-append, is_in-append,
}
use prun.Master.WorkerManager.Thinning.{Thins}

abbrev pub one_if : Bool → ℕ
one_if b = if b then 1 else 0

if_groups :
    (P : TextMap Members → Type 0) (b : Bool) (x y : TextMap Members)
    → P x
    → P y
    → P (if b then x else y)
if_groups P true x y p q = p
if_groups P false x y p q = q

-- A worker in a group, which may be new
pub count_host-change :
    (h k : Text) (f : ℕ → Node) (w : ℕ) (gs : TextMap Members)
    → count_host h f (all_workers (TextMap.change k no_members (add_member w) gs))
      ≡ one_if (text_eq (f w).host h) + count_host h f (all_workers gs)
unfolding TextMap.change all_workers count_host
count_host-change h k f w [] = ground arith
count_host-change h k f w ((i, g) ∷ gs) =
    let n = one_if (text_eq (f w).host h) + count_host h f (g.workers ++ all_workers gs) in
    let P : TextMap Members → Type 0 = λ x. count_host h f (all_workers x) ≡ n in
    let rest = TextMap.change k no_members (add_member w) gs in
    let split = count_host-append h f g.workers (all_workers gs) in
    if_groups P (text_eq k i) ((i, add_member w g) ∷ gs)
      (if text_ltb k i then (k, add_member w no_members) ∷ (i, g) ∷ gs else (i, g) ∷ rest)
      (count_host-append h f (g.workers ++ w ∷ []) (all_workers gs)
        ∙ ground (arith, count_host-append h f g.workers (w ∷ []), split))
      (if_groups P (text_ltb k i) ((k, add_member w no_members) ∷ (i, g) ∷ gs) ((i, g) ∷ rest)
        (ground arith)
        (count_host-append h f g.workers (all_workers rest)
          ∙ ground (arith, count_host-change h k f w gs, split)))

pub is_in-change :
    (v : ℕ) (k : Text) (w : ℕ) (gs : TextMap Members)
    → is_in v (all_workers (TextMap.change k no_members (add_member w) gs))
      ≡ (w == v || is_in v (all_workers gs))
unfolding TextMap.change all_workers is_in
is_in-change v k w [] = ground arith
is_in-change v k w ((i, g) ∷ gs) =
    let b = w == v || is_in v (g.workers ++ all_workers gs) in
    let P : TextMap Members → Type 0 = λ x. is_in v (all_workers x) ≡ b in
    let rest = TextMap.change k no_members (add_member w) gs in
    let split = is_in-append v g.workers (all_workers gs) in
    if_groups P (text_eq k i) ((i, add_member w g) ∷ gs)
      (if text_ltb k i then (k, add_member w no_members) ∷ (i, g) ∷ gs else (i, g) ∷ rest)
      (is_in-append v (g.workers ++ w ∷ []) (all_workers gs)
        ∙ ground (arith, is_in-append v g.workers (w ∷ []), split))
      (if_groups P (text_ltb k i) ((k, add_member w no_members) ∷ (i, g) ∷ gs) ((i, g) ∷ rest) refl
        (is_in-append v g.workers (all_workers rest)
          ∙ ground (arith, is_in-change v k w gs, split)))

module _ {gone : Text → Bool} {f : WorkerList → WorkerList} (t : Thins gone f) where
  pub each_group-SameHosts :
      (gs : TextMap Members) (node_of : ℕ → Node) → SameHosts node_of (each_group f gs node_of).0
  unfolding each_group
  each_group-SameHosts [] node_of w = refl
  each_group-SameHosts ((n, g) ∷ gs) node_of w =
      let l : WorkerList = record {
        node_of = node_of;
        workers = g.workers;
        ip_to_worker = g.ip_to_worker;
      } in
      each_group-SameHosts gs (f l).node_of w ∙ t.same_hosts l w

  pub count_host-each_group :
      (h : Text) (gs : TextMap Members) (node_of : ℕ → Node)
      → count_host h node_of (all_workers (each_group f gs node_of).1)
        ≡ (if gone h then 0 else count_host h node_of (all_workers gs))
  unfolding each_group all_workers count_host
  count_host-each_group h [] node_of = ground arith
  count_host-each_group h ((n, g) ∷ gs) node_of =
      let l : WorkerList = record {
        node_of = node_of;
        workers = g.workers;
        ip_to_worker = g.ip_to_worker;
      } in
      let rest = all_workers (each_group f gs (f l).node_of).1 in
      let same = t.same_hosts l in
      let e : count_host h node_of rest
          ≡ (if gone h then 0 else count_host h node_of (all_workers gs)) =
        sym (count_host-same h node_of (f l).node_of rest same)
        ∙ count_host-each_group h gs (f l).node_of
        ∙ ap (λ k. if gone h then 0 else k)
            (count_host-same h node_of (f l).node_of (all_workers gs) same) in
      count_host-append h node_of (f l).workers rest
      ∙ ground (arith, t.left l h, count_host-append h node_of g.workers (all_workers gs))

  pub is_in-each_group :
      (w : ℕ) (gs : TextMap Members) (node_of : ℕ → Node)
      → is_in w (all_workers (each_group f gs node_of).1) ≡ true
      → is_in w (all_workers gs) ≡ true
  unfolding each_group all_workers
  is_in-each_group w [] node_of e = e
  is_in-each_group w ((n, g) ∷ gs) node_of e =
      let l : WorkerList = record {
        node_of = node_of;
        workers = g.workers;
        ip_to_worker = g.ip_to_worker;
      } in
      let rest = all_workers (each_group f gs (f l).node_of).1 in
      let a = is_in-append w (f l).workers rest in
      let b = is_in-append w g.workers (all_workers gs) in
      elim (Bool-cases (is_in w (f l).workers)) [
        | inl x ↦ ground (arith, t.within l w x)
        | inr x ↦ ground (arith, is_in-each_group w gs (f l).node_of)
      ]

pub contains-erase_hosts :
    (h : Text) (ws : List ℕ) (f : ℕ → Node) (s : TextSet)
    → TextSet.contains h (erase_hosts ws f s) ≡ (ltb (count_host h f ws) 1 && TextSet.contains h s)
unfolding erase_hosts count_host
contains-erase_hosts h [] f s = refl
contains-erase_hosts h (w ∷ ws) f s =
    contains-erase_hosts h ws f (TextSet.erase (f w).host s)
    ∙ ground (arith, TextSet.contains-erase (f w).host h s)

-- A group and the others
pub count_host-erase :
    (h group : Text) (f : ℕ → Node) (g : Members) (gs : TextMap Members)
    → TextMap.find group gs ≡ some g
    → count_host h f (all_workers gs)
      ≡ count_host h f g.workers + count_host h f (all_workers (TextMap.erase group gs))
unfolding TextMap.find TextMap.erase all_workers
count_host-erase h group f g [] e = absurd (ground arith)
count_host-erase h group f g ((i, x) ∷ gs) e = elim (Bool-cases (text_eq group i)) [
  | inl t ↦
      let same : x ≡ g = ground arith in
      rw t (
        count_host-append h f x.workers (all_workers gs)
        ∙ ap (λ (y : Members). count_host h f y.workers + count_host h f (all_workers gs)) same)
  | inr t ↦
      let rest = TextMap.erase group gs in
      let found : TextMap.find group gs ≡ some g = ground arith in
      rw t (
        count_host-append h f x.workers (all_workers gs)
        ∙ omega (
          arith,
          count_host-erase h group f g gs found,
          count_host-append h f x.workers (all_workers rest),
        ))
]

pub is_in-erase :
    (w : ℕ) (group : Text) (gs : TextMap Members)
    → is_in w (all_workers (TextMap.erase group gs)) ≡ true
    → is_in w (all_workers gs) ≡ true
unfolding TextMap.erase all_workers
is_in-erase w group [] e = e
is_in-erase w group ((i, x) ∷ gs) e = elim (Bool-cases (text_eq group i)) [
  | inl t ↦
      let e' : is_in w (all_workers gs) ≡ true = ground arith in
      is_in-append w x.workers (all_workers gs) ∙ ground arith
  | inr t ↦
      let e' : is_in w (x.workers ++ all_workers (TextMap.erase group gs)) ≡ true = ground arith in
      is_in-append w x.workers (all_workers gs)
      ∙ ground (
        arith,
        is_in-append w x.workers (all_workers (TextMap.erase group gs)),
        is_in-erase w group gs,
      )
]
