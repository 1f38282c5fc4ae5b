-- ===== src/Master/WorkerManager/Hosts.antt =====
-- The hosts that WorkerManager has registered (master/worker_manager.cpp): each is the host of one
-- worker of one group.
use prun.Base.{
  ℕ, ◌+◌, ◌<◌, ◌≡◌, ap, ◌∙◌, Bool, true, false, List, [], ◌∷◌, Text, text_eq, text_eq_iff,
  if◌then◌else◌, arith, Bool-cases, Option-cases, inl, inr,
}
use prun.Containers.TextSet
use prun.Containers.TextSet.{TextSet}
use prun.Containers.TextMap
use prun.Containers.TextMap.{TextMap, text_ltb}
use prun.Master.JobStore.{update, update_self, is_in}
use prun.Master.WorkerList
use prun.Master.WorkerList.{Node, WorkerList}
use prun.Master.WorkerManager.{
  Manager, new_node, add_worker_host, add_worker_group, delete_worker_group, each_group, on_groups,
  delete_worker_host, set_worker_ip, all_workers, list_of,
}
use prun.Master.WorkerManager.Counting.{count_host, count_host-same, count_host-update}
use prun.Master.WorkerManager.Thinning.{
  Thins, delete_worker-Thins, set_worker_ip-Thins, clear-SameHosts,
}
use prun.Master.WorkerManager.Grouping.{
  one_if, count_host-change, is_in-change, each_group-SameHosts, count_host-each_group,
  is_in-each_group, contains-erase_hosts, count_host-erase, is_in-erase,
}

-- The workers of all groups on a host
abbrev pub on_host : Text → Manager → ℕ
on_host h m = count_host h m.node_of (all_workers m.groups)

-- A host is that of one worker of the groups if it is registered, and of none if not. The workers'
-- numbers are those that have been used.
pub record IsRegistered (m : Manager) : Type 0 where
  pub listed : (h : Text) → on_host h m ≡ one_if (TextSet.contains h m.hosts)
  pub below : (w : ℕ) → is_in w (all_workers m.groups) ≡ true → w < m.made

module _ {gone : Text → Bool} {f : WorkerList → WorkerList} (t : Thins gone f) where
  on_host-on_groups :
      (h : Text) (m : Manager) → on_host h (on_groups f m) ≡ (if gone h then 0 else on_host h m)
  on_host-on_groups h m =
      count_host-same h m.node_of (each_group f m.groups m.node_of).0 _
        (each_group-SameHosts t m.groups m.node_of)
      ∙ count_host-each_group t h m.groups m.node_of

pub delete_worker_host-IsRegistered :
    (host : Text) (m : Manager) → IsRegistered m → IsRegistered (delete_worker_host host m)
unfolding delete_worker_host
delete_worker_host-IsRegistered host m r = record {
  listed = λ h.
      on_host-on_groups (delete_worker-Thins host) h m
      ∙ ground (arith, r.listed h, TextSet.contains-erase host h m.hosts);
  below = λ w e. r.below w (is_in-each_group (delete_worker-Thins host) w m.groups m.node_of e);
}

pub set_worker_ip-IsRegistered :
    (w : ℕ) (ip : Text) (m : Manager) → IsRegistered m → IsRegistered (set_worker_ip w ip m)
unfolding set_worker_ip
set_worker_ip-IsRegistered w ip m r = record {
  listed = λ h. on_host-on_groups (set_worker_ip-Thins w ip) h m ∙ r.listed h;
  below = λ v e. r.below v (is_in-each_group (set_worker_ip-Thins w ip) v m.groups m.node_of e);
}

pub add_worker_host-IsRegistered :
    (group host : Text) (m : Manager) → IsRegistered m → IsRegistered (add_worker_host group host m)
unfolding add_worker_host
add_worker_host-IsRegistered group host m r = elim (Bool-cases (TextSet.contains host m.hosts)) [
  | inl e ↦ rw (e, add_worker_host) r
  | inr e ↦
      let f = update m.node_of m.made (new_node host) in
      let self : (f m.made).host ≡ host =
        ap (λ (n : Node). n.host) (update_self m.node_of m.made (new_node host)) in
      let absent : is_in m.made (all_workers m.groups) ≡ false =
        elim (Bool-cases (is_in m.made (all_workers m.groups))) [
          | inl i ↦ absurd (omega (arith, r.below m.made i))
          | inr i ↦ i
        ] in
      rw (e, add_worker_host)
        (record {
          listed = λ h.
              count_host-change h group f m.made m.groups
              ∙ ap (λ n. n + count_host h f (all_workers m.groups))
                  (ap (λ x. one_if (text_eq x h)) self)
              ∙ ground (
                arith,
                count_host-update h m.node_of m.made (new_node host) (all_workers m.groups) absent,
                r.listed h,
                TextSet.contains-insert host h m.hosts,
                text_eq_iff host h,
              );
          below = λ w i. ground (arith, is_in-change w group m.made m.groups, r.below w);
        })
]

pub add_worker_group-IsRegistered :
    (group : Text) (hosts : List Text) (m : Manager)
    → IsRegistered m
    → IsRegistered (add_worker_group group hosts m)
unfolding add_worker_group
add_worker_group-IsRegistered group [] m r = r
add_worker_group-IsRegistered group (h ∷ hs) m r =
    add_worker_group-IsRegistered group hs (add_worker_host group h m)
      (add_worker_host-IsRegistered group h m r)

pub delete_worker_group-IsRegistered :
    (group : Text) (m : Manager) → IsRegistered m → IsRegistered (delete_worker_group group m)
unfolding delete_worker_group
delete_worker_group-IsRegistered group m r = elim (Option-cases (TextMap.find group m.groups)) [
  | inl e ↦ rw (e, delete_worker_group) r
  | inr (g, e) ↦
      let l = list_of g m in
      let gs = TextMap.erase group m.groups in
      rw (e, delete_worker_group)
        (record {
          listed = λ h.
              count_host-same h m.node_of (WorkerList.clear l).node_of (all_workers gs)
                (clear-SameHosts l)
              ∙ ground (
                arith,
                contains-erase_hosts h g.workers m.node_of m.hosts,
                count_host-erase h group m.node_of g m.groups e,
                r.listed h,
              );
          below = λ w i. r.below w (is_in-erase w group m.groups i);
        })
]
