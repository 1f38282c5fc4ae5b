-- ===== src/Master/Permissions/Laws.antt =====
-- What the lists permit after any sequence of additions.
use prun.Base.{
  ◌≡◌, refl, sym, ap, Bool, true, false, not, ◌&&◌, ◌||◌, List, [], ◌∷◌, Text, text_eq, text_eq_iff,
  text_eq_refl, is_empty, arith, any, Bool-cases, inl, inr,
}
use prun.Containers.TextSet
use prun.Containers.TextSet.{TextSet}
use prun.Master.Permissions.{
  Permissions, no_limits, add_host, add_host_to_blacklist, is_host_permitted, add_group,
  add_group_to_blacklist,
}

-- The additions that a job description makes.
pub data Addition : Type 0 where
  host host_to_blacklist group group_to_blacklist : Text → Addition

unfoldable pub add : Addition → Permissions → Permissions
add (host x) p = add_host x p
add (host_to_blacklist x) p = add_host_to_blacklist x p
add (group x) p = add_group x p
add (group_to_blacklist x) p = add_group_to_blacklist x p

unfoldable pub add_all : List Addition → Permissions → Permissions
add_all [] p = p
add_all (a ∷ as') p = add_all as' (add a p)

abbrev is_host : Text → Addition → Bool
is_host h (host x) = text_eq x h
is_host h a = false

abbrev is_host_to_blacklist : Text → Addition → Bool
is_host_to_blacklist h (host_to_blacklist x) = text_eq x h
is_host_to_blacklist h a = false

-- No entry of the white list is on the black list.
pub record IsDisjoint (p : Permissions) : Type 0 where
  pub hosts_apart :
      (h : Text) → (TextSet.contains h p.hosts && TextSet.contains h p.blacklist_hosts) ≡ false
  pub groups_apart :
      (g : Text) → (TextSet.contains g p.groups && TextSet.contains g p.blacklist_groups) ≡ false

contains-nil : (h : Text) → TextSet.contains h [] ≡ false
unfolding TextSet.contains
contains-nil h = refl

add-IsDisjoint : (a : Addition) (p : Permissions) → IsDisjoint p → IsDisjoint (add a p)
unfolding add add_host add_host_to_blacklist add_group add_group_to_blacklist
add-IsDisjoint (host x) p d = record {
  hosts_apart =
      λ h. ground (arith, d.hosts_apart h, TextSet.contains-insert x h p.hosts, text_eq_iff x h);
  groups_apart = λ g. ground (arith, d.groups_apart g);
}
add-IsDisjoint (host_to_blacklist x) p d = record {
  hosts_apart = λ h. ground (
    arith,
    d.hosts_apart h,
    TextSet.contains-insert x h p.blacklist_hosts,
    TextSet.contains-erase x h p.hosts,
  );
  groups_apart = λ g. ground (arith, d.groups_apart g);
}
add-IsDisjoint (group x) p d = record {
  hosts_apart = λ h. ground (arith, d.hosts_apart h);
  groups_apart =
      λ g. ground (arith, d.groups_apart g, TextSet.contains-insert x g p.groups, text_eq_iff x g);
}
add-IsDisjoint (group_to_blacklist x) p d = record {
  hosts_apart = λ h. ground (arith, d.hosts_apart h);
  groups_apart = λ g. ground (
    arith,
    d.groups_apart g,
    TextSet.contains-insert x g p.blacklist_groups,
    TextSet.contains-erase x g p.groups,
  );
}

-- The order of additions does not matter for membership: a host is black-listed if it was added to
-- the black list at any time, and white-listed if it was added to the white list and never to the
-- black list.
record Means (before : Permissions) (as' : List Addition) (h : Text) (p : Permissions)
    : Type 0 where
  black :
      TextSet.contains h p.blacklist_hosts
      ≡ (any (is_host_to_blacklist h) as' || TextSet.contains h before.blacklist_hosts)
  white : TextSet.contains h p.hosts ≡ (
      (any (is_host h) as' || TextSet.contains h before.hosts)
      && not (any (is_host_to_blacklist h) as' || TextSet.contains h before.blacklist_hosts))

add-black :
    (a : Addition) (p : Permissions) (h : Text)
    → TextSet.contains h (add a p).blacklist_hosts
      ≡ (is_host_to_blacklist h a || TextSet.contains h p.blacklist_hosts)
unfolding add add_host add_host_to_blacklist add_group add_group_to_blacklist
add-black (host x) p h = ground arith
add-black (host_to_blacklist x) p h = TextSet.contains-insert x h p.blacklist_hosts
add-black (group x) p h = ground arith
add-black (group_to_blacklist x) p h = refl

add-white :
    (a : Addition) (p : Permissions) (h : Text)
    → TextSet.contains h (add a p).hosts ≡ (
        (is_host h a && not (TextSet.contains h p.blacklist_hosts))
        || (TextSet.contains h p.hosts && not (is_host_to_blacklist h a)))
unfolding add add_host add_host_to_blacklist add_group add_group_to_blacklist
add-white (host x) p h = ground (arith, TextSet.contains-insert x h p.hosts, text_eq_iff x h)
add-white (host_to_blacklist x) p h = ground (arith, TextSet.contains-erase x h p.hosts)
add-white (group x) p h = ground arith
add-white (group_to_blacklist x) p h = ground arith

add_all-Means :
    (as' : List Addition) (p : Permissions) (h : Text)
    → IsDisjoint p
    → Means p as' h (add_all as' p)
unfolding add_all
add_all-Means [] p h d = ground (arith, d.hosts_apart h)
add_all-Means (a ∷ as') p h d =
    let rest = add_all-Means as' (add a p) h (add-IsDisjoint a p d) in
    record {
      black = ground (arith, rest.black, add-black a p h);
      white = ground (arith, rest.white, add-black a p h, add-white a p h, d.hosts_apart h);
    }

no_limits-IsDisjoint : IsDisjoint no_limits
unfolding TextSet.contains
no_limits-IsDisjoint = record { hosts_apart = λ h. refl; groups_apart = λ g. refl }

-- Whether some host was added to the white list of which `P` holds
abbrev pub adds_host : (Text → Bool) → List Addition → Bool
adds_host P [] = false
adds_host P (host x ∷ as') = P x || adds_host P as'
adds_host P (a ∷ as') = adds_host P as'

adds_host_of :
    (P : Text → Bool) (h : Text) (as' : List Addition)
    → any (is_host h) as' ≡ true
    → P h ≡ true
    → adds_host P as' ≡ true
adds_host_of P h [] m p = absurd (ground arith)
adds_host_of P h (host x ∷ as') m p = elim (Bool-cases (text_eq x h)) [
  | inl e ↦ let q = ap P ((text_eq_iff x h).0 e) in ground arith
  | inr e ↦ ground (arith, adds_host_of P h as' (ground arith) p)
]
adds_host_of P h (host_to_blacklist x ∷ as') m p = adds_host_of P h as' m p
adds_host_of P h (group x ∷ as') m p = adds_host_of P h as' m p
adds_host_of P h (group_to_blacklist x ∷ as') m p = adds_host_of P h as' m p

-- If what is added is no entry of the list unless `P` fails, and the list is empty, nothing with `P`
-- was added.
adds_none :
    (P : Text → Bool) (as' : List Addition)
    → ((h : Text) → (any (is_host h) as' && P h) ≡ false)
    → adds_host P as' ≡ false
adds_none P [] f = refl
adds_none P (host x ∷ as') f =
    let q = f x in
    let t = text_eq_refl x in let rest = adds_none P as' (λ h. ground (arith, f h)) in ground arith
adds_none P (host_to_blacklist x ∷ as') f = adds_none P as' f
adds_none P (group x ∷ as') f = adds_none P as' f
adds_none P (group_to_blacklist x ∷ as') f = adds_none P as' f

-- Whether a host was never added to the black list
abbrev pub is_left : List Addition → Text → Bool
is_left as' h = not (any (is_host_to_blacklist h) as')

is_empty-adds :
    (as' : List Addition) (l : TextSet)
    → ((h : Text) → TextSet.contains h l ≡ (any (is_host h) as' && is_left as' h))
    → is_empty l ≡ not (adds_host (is_left as') as')
unfolding TextSet.contains
is_empty-adds as' [] f = ap not (sym (adds_none (is_left as') as' (λ h. sym (f h))))
is_empty-adds as' (x ∷ l) f =
    let t = text_eq_refl x in
    let q = f x in
    let r = adds_host_of (is_left as') x as' (ground arith) (ground arith) in ap not (sym r)

-- Whatever the order of the additions to a new job's lists: a host is permitted exactly if it was
-- never added to the black list and, if any host was added to the white list that was never added
-- to the black list, was added to the white list.
pub is_host_permitted-add_all :
    (as' : List Addition) (h : Text)
    → is_host_permitted h (add_all as' no_limits) ≡ (
        not (any (is_host_to_blacklist h) as')
        && (not (adds_host (is_left as') as') || any (is_host h) as'))
unfolding is_host_permitted
is_host_permitted-add_all as' h =
    let means = λ (k : Text). add_all-Means as' no_limits k no_limits-IsDisjoint in
    let white : (k : Text)
        → TextSet.contains k (add_all as' no_limits).hosts
          ≡ (any (is_host k) as' && is_left as' k) =
      λ k. ground (arith, (means k).white, contains-nil k) in
    ground (
      arith,
      (means h).black,
      white h,
      contains-nil h,
      is_empty-adds as' (add_all as' no_limits).hosts white,
    )
