-- ===== src/Master/Permissions.antt =====
-- The host and group lists of master::Job (master/job.cpp): white lists and black lists.
pub mod Laws
use prun.Base.{
  Bool, true, false, not, ◌&&◌, List, [], ◌∷◌, length, is_empty, Text, if◌then◌else◌, ℕ,
}
use prun.Containers.TextSet
use prun.Containers.TextSet.{TextSet}

pub record Permissions : Type 0 where
  pub hosts : TextSet
  pub groups : TextSet
  pub blacklist_hosts : TextSet
  pub blacklist_groups : TextSet

-- A list that is still empty, as in a new job.
abbrev pub no_limits : Permissions
no_limits = record { hosts = []; groups = []; blacklist_hosts = []; blacklist_groups = [] }

unfoldable pub add_host : Text → Permissions → Permissions
add_host h p =
    if TextSet.contains h p.blacklist_hosts
    then p
    else record p { hosts = (TextSet.insert h p.hosts).0 }

unfoldable pub add_host_to_blacklist : Text → Permissions → Permissions
add_host_to_blacklist h p = record p {
  hosts = TextSet.erase h p.hosts;
  blacklist_hosts = (TextSet.insert h p.blacklist_hosts).0;
}

unfoldable pub is_host_permitted : Text → Permissions → Bool
is_host_permitted h p =
    if TextSet.contains h p.blacklist_hosts
    then false
    else (if is_empty p.hosts then true else TextSet.contains h p.hosts)

unfoldable pub get_num_permitted_hosts : Permissions → ℕ
get_num_permitted_hosts p = length p.hosts

unfoldable pub add_group : Text → Permissions → Permissions
add_group g p =
    if TextSet.contains g p.blacklist_groups
    then p
    else record p { groups = (TextSet.insert g p.groups).0 }

unfoldable pub add_group_to_blacklist : Text → Permissions → Permissions
add_group_to_blacklist g p = record p {
  groups = TextSet.erase g p.groups;
  blacklist_groups = (TextSet.insert g p.blacklist_groups).0;
}

unfoldable pub is_group_permitted : Text → Permissions → Bool
is_group_permitted g p =
    if TextSet.contains g p.blacklist_groups
    then false
    else (if is_empty p.groups then true else TextSet.contains g p.groups)
