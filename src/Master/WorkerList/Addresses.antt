-- ===== src/Master/WorkerList/Addresses.antt =====
-- The workers that WorkerList finds by their IP (master/worker.cpp).
use prun.Base.{
  ℕ, ◌≡◌, ◌≢◌, refl, sym, ap, ◌∙◌, Bool, true, false, not, ◌&&◌, ◌||◌, Option, none, some, List, [],
  ◌∷◌, Text, text_eq, text_eq_iff, text_eq_refl, ◌==◌, if◌then◌else◌, arith, Bool-cases, inl, inr,
}
use prun.Master.JobStore.{is_in, update}
use prun.Master.WorkerList.{
  WorkerList, find_ip, erase_ip, forget, delete_loop, delete_worker, get_worker_by_ip,
}

pub find_ip-erase_ip :
    (ip q : Text) (m : List (Text × ℕ))
    → find_ip q (erase_ip ip m) ≡ (if text_eq ip q then none else find_ip q m)
unfolding find_ip erase_ip
find_ip-erase_ip ip q [] = ground arith
find_ip-erase_ip ip q ((k, w) ∷ m) =
    ground (arith, find_ip-erase_ip ip q m, text_eq_iff k ip, text_eq_iff k q, text_eq_iff ip q)

disabled_same :
    (w x : ℕ) (l : WorkerList)
    → (((forget w l).node_of x).host ≡ (l.node_of x).host)
      × (((forget w l).node_of x).ip ≡ (l.node_of x).ip)
unfolding update
disabled_same w x l = elim (Bool-cases (w == x)) [
  | inl e ↦ let f : w ≡ x = ground arith in rw (e, f) (refl, refl)
  | inr e ↦ rw e (refl, refl)
]

-- The body of the loop of DeleteWorker
abbrev pub step : Text → ℕ → WorkerList → WorkerList
step host w l = if text_eq (l.node_of w).host host then forget w l else l

pub step_same :
    (host : Text) (w x : ℕ) (l : WorkerList)
    → (((step host w l).node_of x).host ≡ (l.node_of x).host)
      × (((step host w l).node_of x).ip ≡ (l.node_of x).ip)
step_same host w x l = elim (Bool-cases (text_eq (l.node_of w).host host)) [
  | inl e ↦ rw e (disabled_same w x l)
  | inr e ↦ rw e (refl, refl)
]

step_find :
    (host : Text) (w : ℕ) (ip : Text) (l : WorkerList)
    → get_worker_by_ip ip (step host w l) ≡ (
        if text_eq (l.node_of w).host host && text_eq (l.node_of w).ip ip
        then none
        else get_worker_by_ip ip l)
step_find host w ip l = elim (Bool-cases (text_eq (l.node_of w).host host)) [
  | inl e ↦ rw e (find_ip-erase_ip (l.node_of w).ip ip l.ip_to_worker)
  | inr e ↦ rw e refl
]

pub loop_same :
    (host : Text) (ws : List ℕ) (x : ℕ) (l : WorkerList)
    → (((delete_loop host ws l).0.node_of x).host ≡ (l.node_of x).host)
      × (((delete_loop host ws l).0.node_of x).ip ≡ (l.node_of x).ip)
unfolding delete_loop
loop_same host [] x l = (refl, refl)
loop_same host (w ∷ ws) x l =
    let (a, b) = loop_same host ws x (step host w l) in
    let (c, d) = step_same host w x l in (a ∙ c, b ∙ d)

if_none {ℓ} :
    {A : Type ℓ} (c : Bool) (o : Option A) (x : A)
    → (if c then none else o) ≡ some x
    → (c ≡ false) × (o ≡ some x)
if_none true o x h = ground arith
if_none false o x h = (refl, h)

-- What is found after the loop was found before it, and is not the worker at the IP of one that goes.
loop_find :
    (host : Text) (ws : List ℕ) (ip : Text) (x : ℕ) (l : WorkerList)
    → get_worker_by_ip ip (delete_loop host ws l).0 ≡ some x
    → (get_worker_by_ip ip l ≡ some x)
      × ((w : ℕ)
          → is_in w ws ≡ true
          → (text_eq (l.node_of w).host host && text_eq (l.node_of w).ip ip) ≡ false)
unfolding delete_loop is_in
loop_find host [] ip x l h = (h, λ w m. ground arith)
loop_find host (v ∷ ws) ip x l h =
    let (a, b) = loop_find host ws ip x (step host v l) h in
    let (c, o) =
      if_none (text_eq (l.node_of v).host host && text_eq (l.node_of v).ip ip) _ x
        (sym (step_find host v ip l) ∙ a) in
    (
      o,
      λ w m. elim (Bool-cases (v == w)) [
        | inl e ↦ let f : w ≡ v = ground arith in rw f c
        | inr e ↦
            let r : is_in w ws ≡ true = ground arith in
            let (s, t) = step_same host v w l in rw (sym s, sym t) (b w r)
      ],
    )

is_in_kept :
    (c : Bool) (v x : ℕ) (ws : List ℕ)
    → is_in x (if c then ws else v ∷ ws) ≡ ((not c && v == x) || is_in x ws)
unfolding is_in
is_in_kept true v x ws = refl
is_in_kept false v x ws = refl

same_test :
    (v x : ℕ) (f : ℕ → Bool) (b : Bool)
    → ((not (f v) && v == x) || (b && not (f x))) ≡ ((v == x || b) && not (f x))
same_test v x f b = elim (Bool-cases (v == x)) [
  | inl e ↦ let h : f v ≡ f x = ap f (ground arith) in ground arith
  | inr e ↦ ground arith
]

-- The workers that stay after the loop
pub loop_left :
    (host : Text) (ws : List ℕ) (x : ℕ) (l : WorkerList)
    → is_in x (delete_loop host ws l).1 ≡ (is_in x ws && not (text_eq (l.node_of x).host host))
unfolding delete_loop is_in
loop_left host [] x l = refl
loop_left host (v ∷ ws) x l =
    let r = loop_left host ws x (step host v l) in
    let (s, _) = step_same host v x l in
    is_in_kept (text_eq (l.node_of v).host host) v x _
    ∙ ap (λ b. (not (text_eq (l.node_of v).host host) && v == x) || b)
        (r ∙ ap (λ h. is_in x ws && not (text_eq h host)) s)
    ∙ same_test v x (λ w. text_eq (l.node_of w).host host) (is_in x ws)

-- Each IP in the map leads to a worker of the list that has this IP.
unfoldable pub IsConsistent : WorkerList → Type 0
IsConsistent l =
    (ip : Text) (w : ℕ)
    → get_worker_by_ip ip l ≡ some w
    → (is_in w l.workers ≡ true) × ((l.node_of w).ip ≡ ip)

-- If each IP in the map leads to a worker of the list that has this IP, it does so after DeleteWorker,
-- and no IP leads to a worker of the deleted host any more.
pub delete_worker-IsConsistent :
    (host : Text) (l : WorkerList)
    → IsConsistent l
    → IsConsistent (delete_worker host l)
      × ((ip : Text) (w : ℕ)
          → get_worker_by_ip ip (delete_worker host l) ≡ some w
          → (l.node_of w).host ≢ host)
unfolding delete_worker IsConsistent
delete_worker-IsConsistent host l c =
    let stays : (ip : Text) (w : ℕ)
        → get_worker_by_ip ip (delete_loop host l.workers l).0 ≡ some w
        → (is_in w l.workers ≡ true)
          × ((l.node_of w).ip ≡ ip)
          × (text_eq (l.node_of w).host host ≡ false) =
      λ ip w h.
        let (o, t) = loop_find host l.workers ip w l h in
        let (m, i) = c ip w o in
        let e = text_eq_refl ip in
        let g : (text_eq (l.node_of w).host host && text_eq ip ip) ≡ false =
          sym (ap (λ q. text_eq (l.node_of w).host host && text_eq q ip) i) ∙ t w m in
        (m, i, ground arith) in
    (
      λ ip w h.
          let (m, i, g) = stays ip w h in
          let (_, b) = loop_same host l.workers w l in
          let r = loop_left host l.workers w l in (ground arith, b ∙ i),
      λ ip w h.
          let (_, _, g) = stays ip w h in
          let n = text_eq_iff (l.node_of w).host host in ground arith,
    )

-- The loop keeps the entry of an IP that no worker that goes has.
pub loop_keeps :
    (host : Text) (ws : List ℕ) (ip : Text) (l : WorkerList)
    → ((w : ℕ)
        → is_in w ws ≡ true
        → (text_eq (l.node_of w).host host && text_eq (l.node_of w).ip ip) ≡ false)
    → get_worker_by_ip ip (delete_loop host ws l).0 ≡ get_worker_by_ip ip l
unfolding delete_loop is_in
loop_keeps host [] ip l h = refl
loop_keeps host (v ∷ ws) ip l h =
    let c = h v (ground arith) in
    loop_keeps host ws ip (step host v l)
      (λ w m. let (s, t) = step_same host v w l in rw (s, t) (h w (ground arith)))
    ∙ step_find host v ip l
    ∙ rw c refl
