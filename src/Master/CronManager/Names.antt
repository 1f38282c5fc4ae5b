-- ===== src/Master/CronManager/Names.antt =====
-- The handlers of CronManager (master/cron_manager.cpp) and the names that lead to them.
use prun.Base.{
  ℕ, ◌<◌, ◌≡◌, refl, sym, ap, subst, ◌∙◌, true, false, ◌||◌, none, some, List, [], ◌∷◌, Text,
  text_eq, text_eq_iff, ltb, ◌==◌, if◌then◌else◌, arith, Bool-cases, inl, inr,
}
use prun.Containers.TextMap
use prun.Containers.TextMap.{TextMap}
use prun.Master.JobStore.{update, update_self, update_other, is_in}
use prun.Master.Timeouts.{emplace}
use prun.Master.WorkerManager.Pinging.{Distinct}
use prun.Master.CronManager.{Handler, CronManager, insert_handler}

pub find-change :
    (k x : Text) (i : ℕ) (m : TextMap ℕ)
    → TextMap.find x (TextMap.change k i (λ j. i) m)
      ≡ (if text_eq x k then some i else TextMap.find x m)
unfolding TextMap.find TextMap.change
find-change k x i [] = refl
find-change k x i ((n, v) ∷ m) =
    ground (arith, find-change k x i m, text_eq_iff x k, text_eq_iff k n, text_eq_iff x n)

pub find-erase :
    (k x : Text) (m : TextMap ℕ)
    → text_eq x k ≡ false
    → TextMap.find x (TextMap.erase k m) ≡ TextMap.find x m
unfolding TextMap.find TextMap.erase
find-erase k x [] e = refl
find-erase k x ((n, v) ∷ m) e =
    ground (arith, find-erase k x m e, text_eq_iff x k, text_eq_iff k n, text_eq_iff x n)

-- The handlers of the multimap
unfoldable pub handlers : List (ℕ × ℕ) → List ℕ
handlers [] = []
handlers ((t, i) ∷ l) = i ∷ handlers l

pub is_in-emplace :
    (t i j : ℕ) (l : List (ℕ × ℕ))
    → is_in j (handlers (emplace t i l)) ≡ (i == j || is_in j (handlers l))
unfolding emplace handlers is_in
is_in-emplace t i j [] = refl
is_in-emplace t i j ((u, k) ∷ l) = ground (arith, is_in-emplace t i j l)

emplace-Distinct :
    (t i : ℕ) (l : List (ℕ × ℕ))
    → is_in i (handlers l) ≡ false
    → Distinct (handlers l)
    → Distinct (handlers (emplace t i l))
unfolding emplace handlers is_in
emplace-Distinct t i [] e d = (refl, tt)
emplace-Distinct t i ((u, k) ∷ l) e d = elim (Bool-cases (ltb t u)) [
  | inl x ↦ rw x (e, d)
  | inr x ↦
      rw x (is_in-emplace t i k l ∙ ground (arith, d.0), emplace-Distinct t i l (ground arith) d.1)
]

-- Each handler of a list that is not removed is the one that its name leads to.
abbrev pub Leads : (ℕ → Handler) → List (ℕ × ℕ) → TextMap ℕ → Type 0
Leads f l names =
    (i : ℕ)
    → is_in i (handlers l) ≡ true
    → (f i).removed ≡ false
    → TextMap.find (f i).job_name names ≡ some i

-- That of the manager's, no handler is there twice, and the numbers are those that have been used.
pub record IsNamed (c : CronManager) : Type 0 where
  pub leads : Leads c.handler_of c.jobs c.names
  pub distinct : Distinct (handlers c.jobs)
  pub below : (i : ℕ) → is_in i (handlers c.jobs) ≡ true → i < c.made

pub insert_handler-IsNamed :
    (h : Handler) (c : CronManager)
    → TextMap.find h.job_name c.names ≡ none
    → IsNamed c
    → IsNamed (insert_handler h c)
insert_handler-IsNamed h c e r =
    let absent : is_in c.made (handlers c.jobs) ≡ false =
      elim (Bool-cases (is_in c.made (handlers c.jobs))) [
        | inl i ↦ absurd (omega (arith, r.below c.made i))
        | inr i ↦ i
      ] in
    record {
      leads = λ i x y. elim (Bool-cases (c.made == i)) [
        | inl t ↦
            let s : c.made ≡ i = ground arith in
            let n : (update c.handler_of c.made h i).job_name ≡ h.job_name =
              ap (λ (k : ℕ). (update c.handler_of c.made h k).job_name) (sym s)
              ∙ ap (λ (g : Handler). g.job_name) (update_self c.handler_of c.made h) in
            find-change h.job_name (update c.handler_of c.made h i).job_name c.made c.names
            ∙ ground (arith, text_eq_iff (update c.handler_of c.made h i).job_name h.job_name)
        | inr t ↦
            let o = update_other c.handler_of c.made i h t in
            let y' : (c.handler_of i).removed ≡ false =
              ap (λ (g : Handler). g.removed) (sym o) ∙ y in
            let x' : is_in i (handlers c.jobs) ≡ true =
              ground (arith, is_in-emplace h.deadline c.made i c.jobs) in
            let f = r.leads i x' y' in
            ap (λ (g : Handler). TextMap.find g.job_name (insert_handler h c).names) o
            ∙ find-change h.job_name (c.handler_of i).job_name c.made c.names
            ∙ other h.job_name (c.handler_of i).job_name i c.names c.made e f
      ];
      distinct = emplace-Distinct h.deadline c.made c.jobs absent r.distinct;
      below = λ i x. ground (arith, is_in-emplace h.deadline c.made i c.jobs, r.below i);
    }
  where
    other :
        (k x : Text) (i : ℕ) (m : TextMap ℕ) (j : ℕ)
        → TextMap.find k m ≡ none
        → TextMap.find x m ≡ some i
        → (if text_eq x k then some j else TextMap.find x m) ≡ some i
    other k x i m j e f = elim (Bool-cases (text_eq x k)) [
      | inl t ↦
          let s : TextMap.find x m ≡ TextMap.find k m =
            ap (λ y. TextMap.find y m) ((text_eq_iff x k).0 t) in
          absurd (ground arith)
      | inr t ↦ rw t f
    ]

-- A handler that leaves takes its name along, and no other's.
pub erase-Leads :
    (f : ℕ → Handler) (t i : ℕ) (l : List (ℕ × ℕ)) (names : TextMap ℕ)
    → Leads f ((t, i) ∷ l) names
    → Distinct (handlers ((t, i) ∷ l))
    → (f i).removed ≡ false
    → Leads f l (TextMap.erase (f i).job_name names)
unfolding handlers is_in
erase-Leads f t i l names r d e j x y =
    let a = r i (ground arith) e in
    let b = r j (ground arith) y in
    elim (Bool-cases (text_eq (f j).job_name (f i).job_name)) [
      | inl s ↦
          let n =
            ap (λ k. TextMap.find k names) ((text_eq_iff (f j).job_name (f i).job_name).0 s) in
          let same : i ≡ j = ground arith in
          let z : is_in i (handlers l) ≡ true =
            subst (λ k. is_in k (handlers l) ≡ true) (sym same) x in
          absurd (ground arith)
      | inr s ↦ find-erase (f i).job_name (f j).job_name names s ∙ b
    ]
