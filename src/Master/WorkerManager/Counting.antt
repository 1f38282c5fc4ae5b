-- ===== src/Master/WorkerManager/Counting.antt =====
-- How many workers of a list are on a host.
use prun.Base.{
  ℕ, suc, ◌+◌, ◌≤◌, ◌≡◌, refl, ap, true, false, ◌||◌, List, [], ◌∷◌, ◌++◌, Text, text_eq,
  text_eq_iff, text_eq_refl, ◌==◌, if◌then◌else◌, arith, Bool-cases, inl, inr,
}
use prun.Master.JobStore.{update, update_other, is_in}
use prun.Master.WorkerList.{Node}
use prun.Master.WorkerManager.Pinging.{Distinct}

unfoldable pub count_host : Text → (ℕ → Node) → List ℕ → ℕ
count_host h f [] = 0
count_host h f (w ∷ ws) =
    if text_eq (f w).host h then suc (count_host h f ws) else count_host h f ws

-- The same hosts
abbrev pub SameHosts : (ℕ → Node) → (ℕ → Node) → Type 0
SameHosts f g = (w : ℕ) → (g w).host ≡ (f w).host

pub count_host-same :
    (h : Text) (f g : ℕ → Node) (ws : List ℕ)
    → SameHosts f g
    → count_host h g ws ≡ count_host h f ws
unfolding count_host
count_host-same h f g [] s = refl
count_host-same h f g (w ∷ ws) s =
    let e = ap (λ x. text_eq x h) (s w) in ground (arith, count_host-same h f g ws s)

pub count_host-append :
    (h : Text) (f : ℕ → Node) (xs ys : List ℕ)
    → count_host h f (xs ++ ys) ≡ count_host h f xs + count_host h f ys
unfolding count_host
count_host-append h f [] ys = omega arith
count_host-append h f (x ∷ xs) ys = ground (arith, count_host-append h f xs ys)

pub is_in-append : (w : ℕ) (xs ys : List ℕ) → is_in w (xs ++ ys) ≡ (is_in w xs || is_in w ys)
unfolding is_in
is_in-append w [] ys = refl
is_in-append w (x ∷ xs) ys = ground (arith, is_in-append w xs ys)

-- A change at a worker that is not in the list
pub count_host-update :
    (h : Text) (f : ℕ → Node) (v : ℕ) (n : Node) (ws : List ℕ)
    → is_in v ws ≡ false
    → count_host h (update f v n) ws ≡ count_host h f ws
unfolding count_host is_in
count_host-update h f v n [] e = refl
count_host-update h f v n (w ∷ ws) e =
    let o : (v == w) ≡ false = ground arith in
    let s = ap (λ (x : Node). text_eq x.host h) (update_other f v w n o) in
    ground (arith, count_host-update h f v n ws)

is_in-count_host :
    (w : ℕ) (f : ℕ → Node) (ws : List ℕ) → is_in w ws ≡ true → 1 ≤ count_host (f w).host f ws
unfolding count_host is_in
is_in-count_host w f [] e = absurd (ground arith)
is_in-count_host w f (x ∷ ws) e = elim (Bool-cases (x == w)) [
  | inl t ↦
      let s : text_eq (f x).host (f w).host ≡ true =
        (text_eq_iff (f x).host (f w).host).1 (ap (λ y. (f y).host) (ground arith)) in
      ground arith
  | inr t ↦ ground (arith, is_in-count_host w f ws)
]

-- A list with each host at most once has no worker twice.
pub count_host-Distinct :
    (f : ℕ → Node) (ws : List ℕ) → ((h : Text) → count_host h f ws ≤ 1) → Distinct ws
unfolding count_host
count_host-Distinct f [] c = tt
count_host-Distinct f (w ∷ ws) c =
    let t = text_eq_refl (f w).host in
    (
      elim (Bool-cases (is_in w ws)) [
        | inl e ↦ absurd (ground (arith, is_in-count_host w f ws e, c (f w).host))
        | inr e ↦ e
      ],
      count_host-Distinct f ws (λ h. ground (arith, c h)),
    )
