-- ===== src/Master/JobManager/Files.antt =====
-- The job files of a meta job (master/job_manager.cpp): the vertex of each, and that no vertex is
-- without an edge.
use prun.Base.{
  ℕ, suc, zero, ◌<◌, ◌≡◌, refl, ap, subst, ◌∙◌, true, false, ◌||◌, some, List, [], ◌∷◌, ◌++◌, Text,
  text_eq, text_eq_iff, any, length, All, max, arith, Bool-cases, inl, inr,
}
use prun.Containers.TextMap.{text_ltb}
use prun.Master.JobManager.Graphs.{
  insert_file, insert_all, job_files, index_of, chain, list_edges, all_edges, num_vertices,
}
use prun.Master.JobManager.Cycles.{is_file, insert_file-is_file, bind_some}

text_ltb_irrefl : (s : Text) → text_ltb s s ≡ false
unfolding text_ltb
text_ltb_irrefl [] = refl
text_ltb_irrefl (c ∷ s) = ground (arith, text_ltb_irrefl s)

text_ltb_trans : (s t u : Text) → text_ltb s t ≡ true → text_ltb t u ≡ true → text_ltb s u ≡ true
unfolding text_ltb
text_ltb_trans s [] u h k = absurd (ground arith)
text_ltb_trans s (d ∷ t) [] h k = absurd (ground arith)
text_ltb_trans [] (d ∷ t) (e ∷ u) h k = refl
text_ltb_trans (c ∷ s) (d ∷ t) (e ∷ u) h k = ground (arith, text_ltb_trans s t u)

text_ltb_total : (s t : Text) → text_eq s t ≡ false → text_ltb s t ≡ false → text_ltb t s ≡ true
unfolding text_ltb
text_ltb_total [] [] h k = absurd (ground arith)
text_ltb_total [] (d ∷ t) h k = absurd (ground arith)
text_ltb_total (c ∷ s) [] h k = refl
text_ltb_total (c ∷ s) (d ∷ t) h k = ground (arith, text_ltb_total s t)

abbrev Before : Text → List Text → Type 0
Before g gs = All (λ h. text_ltb g h ≡ true) gs

abbrev Sorted : List Text → Type 0
Sorted [] = Unit
Sorted (g ∷ gs) = Before g gs × Sorted gs

Before-trans : (f g : Text) (gs : List Text) → text_ltb f g ≡ true → Before g gs → Before f gs
Before-trans f g [] h b = tt
Before-trans f g (x ∷ gs) h b = (text_ltb_trans f g x h b.0, Before-trans f g gs h b.1)

Before-insert_file :
    (f g : Text) (gs : List Text) → text_ltb g f ≡ true → Before g gs → Before g (insert_file f gs)
unfolding insert_file
Before-insert_file f g [] h b = (h, tt)
Before-insert_file f g (x ∷ gs) h b = ground (arith, Before-insert_file f g gs)

insert_file-Sorted : (f : Text) (gs : List Text) → Sorted gs → Sorted (insert_file f gs)
unfolding insert_file
insert_file-Sorted f [] s = (tt, tt)
insert_file-Sorted f (g ∷ gs) s = ground (
  arith,
  insert_file-Sorted f gs,
  Before-insert_file f g gs,
  Before-trans f g gs,
  text_ltb_total f g,
)

insert_all-Sorted : (fs s : List Text) → Sorted s → Sorted (insert_all fs s)
unfolding insert_all
insert_all-Sorted [] s h = h
insert_all-Sorted (f ∷ fs) s h = insert_all-Sorted fs (insert_file f s) (insert_file-Sorted f s h)

job_files-Sorted : (ls : List (List Text)) (s : List Text) → Sorted s → Sorted (job_files ls s)
unfolding job_files
job_files-Sorted [] s h = h
job_files-Sorted (l ∷ ls) s h = job_files-Sorted ls (insert_all l s) (insert_all-Sorted l s h)

-- The file at a place, and that its index is this place
abbrev file_at : List Text → ℕ → Text
file_at [] v = []
file_at (g ∷ gs) zero = g
file_at (g ∷ gs) (suc v) = file_at gs v

Before-file_at :
    (g : Text) (gs : List Text) (v : ℕ)
    → Before g gs
    → v < length gs
    → text_ltb g (file_at gs v) ≡ true
Before-file_at g [] v b l = absurd (omega arith)
Before-file_at g (x ∷ gs) zero b l = b.0
Before-file_at g (x ∷ gs) (suc v) b l = Before-file_at g gs v b.1 (omega arith)

index_of-file_at :
    (gs : List Text) (v : ℕ) → Sorted gs → v < length gs → index_of (file_at gs v) gs ≡ v
unfolding index_of
index_of-file_at [] v s l = absurd (omega arith)
index_of-file_at (g ∷ gs) zero s l = rw ((text_eq_iff g g).1 refl) refl
index_of-file_at (g ∷ gs) (suc v) s l =
    let b = Before-file_at g gs v s.0 (omega arith) in
    let i = text_ltb_irrefl g in
    let e = text_eq_iff g (file_at gs v) in
    let n : text_eq g (file_at gs v) ≡ false = elim (Bool-cases (text_eq g (file_at gs v))) [
      | inl t ↦ absurd (let f = e.0 t in ground (arith, ap (text_ltb g) f))
      | inr t ↦ t
    ] in
    rw n (ap suc (index_of-file_at gs v s.1 (omega arith)))

file_at-is_file : (gs : List Text) (v : ℕ) → v < length gs → is_file (file_at gs v) gs ≡ true
file_at-is_file [] v l = absurd (omega arith)
file_at-is_file (g ∷ gs) zero l = rw ((text_eq_iff g g).1 refl) refl
file_at-is_file (g ∷ gs) (suc v) l = let h = file_at-is_file gs v (omega arith) in ground arith

insert_all-is_file :
    (h : Text) (fs s : List Text) → is_file h (insert_all fs s) ≡ (is_file h fs || is_file h s)
unfolding insert_all
insert_all-is_file h [] s = refl
insert_all-is_file h (f ∷ fs) s =
    insert_all-is_file h fs (insert_file f s) ∙ ground (arith, insert_file-is_file f h s)

job_files-is_file :
    (h : Text) (ls : List (List Text)) (s : List Text)
    → is_file h (job_files ls s) ≡ (any (is_file h) ls || is_file h s)
unfolding job_files
job_files-is_file h [] s = refl
job_files-is_file h (l ∷ ls) s =
    job_files-is_file h ls (insert_all l s) ∙ ground (arith, insert_all-is_file h l s)

num_vertices-append :
    (xs ys : List (ℕ × ℕ)) → num_vertices (xs ++ ys) ≡ max (num_vertices xs) (num_vertices ys)
unfolding num_vertices
num_vertices-append [] ys = omega arith
num_vertices-append (x ∷ xs) ys = omega (arith, num_vertices-append xs ys)

-- A file of a list behind its first is the end of one of the list's edges.
chain-vertices :
    (files : List Text) (h : Text) (v : ℕ) (fs : List Text)
    → is_file h fs ≡ true
    → index_of h files < num_vertices (chain files v fs)
unfolding chain num_vertices
chain-vertices files h v [] m = absurd (ground arith)
chain-vertices files h v (f ∷ fs) m = elim (Bool-cases (text_eq f h)) [
  | inl e ↦
      let i : index_of f files ≡ index_of h files =
        ap (λ x. index_of x files) ((text_eq_iff f h).0 e) in
      omega arith
  | inr e ↦ let l = chain-vertices files h (index_of f files) fs (ground arith) in omega arith
]

chain_first :
    (files : List Text) (v : ℕ) (f : Text) (fs : List Text)
    → v < num_vertices (chain files v (f ∷ fs))
unfolding chain num_vertices
chain_first files v f fs = omega arith

list_edges-vertices :
    (files l : List Text) (es : List (ℕ × ℕ)) (h : Text)
    → list_edges files l ≡ some es
    → is_file h l ≡ true
    → index_of h files < num_vertices es
unfolding list_edges
list_edges-vertices files [] es h e m = absurd (ground arith)
list_edges-vertices files (f ∷ []) es h e m = absurd (ground arith)
list_edges-vertices files (f ∷ g ∷ gs) es h e m =
    let d : chain files (index_of f files) (g ∷ gs) ≡ es = cc in
    subst (λ x. index_of h files < num_vertices x) d
      (elim (Bool-cases (text_eq f h)) [
        | inl t ↦
            subst (λ x. index_of x files < num_vertices (chain files (index_of f files) (g ∷ gs)))
              ((text_eq_iff f h).0 t) (chain_first files (index_of f files) g gs)
        | inr t ↦ chain-vertices files h (index_of f files) (g ∷ gs) (ground arith)
      ])

all_edges-vertices :
    (files : List Text) (ls : List (List Text)) (es : List (ℕ × ℕ)) (h : Text)
    → all_edges files ls ≡ some es
    → any (is_file h) ls ≡ true
    → index_of h files < num_vertices es
unfolding all_edges
all_edges-vertices files [] es h e m = absurd (ground arith)
all_edges-vertices files (l ∷ ls) es h e m =
    let (ds, d, e1) = bind_some (list_edges files l) _ e in
    let (rest, r, e2) = bind_some (all_edges files ls) _ e1 in
    let s : ds ++ rest ≡ es = cc in
    let n = num_vertices-append ds rest in
    subst (λ x. index_of h files < num_vertices x) s
      (elim (Bool-cases (is_file h l)) [
        | inl t ↦ let a = list_edges-vertices files l ds h d t in omega arith
        | inr t ↦ let a = all_edges-vertices files ls rest h r (ground arith) in omega arith
      ])

-- Each file is a vertex of the graph.
pub all_edges-covers :
    (ls : List (List Text)) (es : List (ℕ × ℕ)) (v : ℕ)
    → all_edges (job_files ls []) ls ≡ some es
    → v < length (job_files ls [])
    → v < num_vertices es
all_edges-covers ls es v e l =
    let files = job_files ls [] in
    let f = file_at files v in
    let i = index_of-file_at files v (job_files-Sorted ls [] tt) l in
    let m = file_at-is_file files v l in
    let a = all_edges-vertices files ls es f e (ground (arith, job_files-is_file f ls [])) in
    subst (λ x. x < num_vertices es) i a
