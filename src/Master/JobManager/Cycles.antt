-- ===== src/Master/JobManager/Cycles.antt =====
-- The graph of a meta job (master/job_manager.cpp): its edges lead between its jobs, and when
-- depth_first_search finds no back edge, some job that is not done waits for none that is not done.
use prun.Base.{
  ℕ, suc, zero, ◌<◌, ◌≡◌, refl, subst, ◌∙◌, Bool, true, false, not, ◌&&◌, ◌||◌, Option, none, some,
  List, [], ◌∷◌, ◌++◌, Text, text_eq, text_eq_iff, any, length, All, All-append, ◌==◌,
  if◌then◌else◌, arith, Bool-cases, inl, inr, ◌⊎◌,
}
use prun.Master.JobManager.Descriptions.{Outside, ◌>>=◌}
use prun.Master.JobManager.Graphs.{
  insert_file, insert_all, job_files, index_of, chain, list_edges, all_edges, has_cycle,
}

-- A rank of the vertices that grows along each edge, as a topological order gives
abbrev pub Ranked : List (ℕ × ℕ) → Type 0
Ranked es = (rank : ℕ → ℕ) × All (λ (e : ℕ × ℕ). rank e.0 < rank e.1) es

-- depth_first_search calls back_edge for some edge of each graph that has a cycle.
abbrev pub FindsCycles : Outside → Type 0
FindsCycles out = (es : List (ℕ × ℕ)) → out.back_edges es ≡ [] → Ranked es

has_cycle_set : (es : List (ℕ × ℕ)) → has_cycle es true ≡ true
unfolding has_cycle
has_cycle_set [] = refl
has_cycle_set (e ∷ es) = has_cycle_set es

pub no_back_edges : (es : List (ℕ × ℕ)) → has_cycle es false ≡ false → es ≡ []
unfolding has_cycle
no_back_edges [] h = refl
no_back_edges (e ∷ es) h = absurd (ground (arith, has_cycle_set es))

-- The edges to a vertex from vertices that are not done
unfoldable pub open_degree : (ℕ → Bool) → ℕ → List (ℕ × ℕ) → ℕ
open_degree done v [] = 0
open_degree done v ((a, b) ∷ es) =
    if b == v && not (done a) then suc (open_degree done v es) else open_degree done v es

-- Each edge leads between the first `n` vertices.
abbrev pub Within : ℕ → List (ℕ × ℕ) → Type 0
Within n es = All (λ (e : ℕ × ℕ). (e.0 < n) × (e.1 < n)) es

-- An open edge to a vertex, if there is one
open_edge :
    (done : ℕ → Bool) (rank : ℕ → ℕ) (n v : ℕ) (es : List (ℕ × ℕ))
    → All (λ (e : ℕ × ℕ). rank e.0 < rank e.1) es
    → Within n es
    → (open_degree done v es ≡ 0) ⊎ ((a : ℕ) × (a < n) × (done a ≡ false) × (rank a < rank v))
unfolding open_degree
open_edge done rank n v [] r w = inl refl
open_edge done rank n v ((a, b) ∷ es) r w = elim (Bool-cases (b == v && not (done a))) [
  | inl e ↦
      let f : b ≡ v = ground arith in
      inr (a, w.0.0, ground arith, subst (λ x. rank a < rank x) f r.0)
  | inr e ↦ rw e (open_edge done rank n v es r.1 w.1)
]

-- A vertex that is not done and has no open edge, from one that is not done and of rank below `k`
ready_below :
    (done : ℕ → Bool) (rank : ℕ → ℕ) (n k v : ℕ) (es : List (ℕ × ℕ))
    → All (λ (e : ℕ × ℕ). rank e.0 < rank e.1) es
    → Within n es
    → v < n
    → done v ≡ false
    → rank v < k
    → (u : ℕ) × (u < n) × (done u ≡ false) × (open_degree done u es ≡ 0)
ready_below done rank n zero v es r w l d b = absurd (omega arith)
ready_below done rank n (suc k) v es r w l d b = elim (open_edge done rank n v es r w) [
  | inl e ↦ (v, l, d, e)
  | inr (a, la, da, ra) ↦ ready_below done rank n k a es r w la da (omega arith)
]

pub ready :
    (done : ℕ → Bool) (n v : ℕ) (es : List (ℕ × ℕ))
    → Ranked es
    → Within n es
    → v < n
    → done v ≡ false
    → (u : ℕ) × (u < n) × (done u ≡ false) × (open_degree done u es ≡ 0)
ready done n v es (rank, r) w l d =
    ready_below done rank n (suc (rank v)) v es r w l d (omega arith)

-- Whether a file is among these
abbrev pub is_file : Text → List Text → Bool
is_file f gs = any (λ g. text_eq g f) gs

index_of-lt : (f : Text) (gs : List Text) → is_file f gs ≡ true → index_of f gs < length gs
unfolding index_of
index_of-lt f [] h = absurd (ground arith)
index_of-lt f (g ∷ gs) h = ground (arith, index_of-lt f gs)

pub insert_file-is_file :
    (f h : Text) (gs : List Text) → is_file h (insert_file f gs) ≡ (text_eq f h || is_file h gs)
unfolding insert_file
insert_file-is_file f h [] = refl
insert_file-is_file f h (g ∷ gs) =
    ground (arith, insert_file-is_file f h gs, text_eq_iff f g, text_eq_iff f h, text_eq_iff g h)

-- What is among the files stays there.
insert_all-keeps :
    (h : Text) (fs s : List Text) → is_file h s ≡ true → is_file h (insert_all fs s) ≡ true
unfolding insert_all
insert_all-keeps h [] s m = m
insert_all-keeps h (f ∷ fs) s m =
    insert_all-keeps h fs (insert_file f s) (insert_file-is_file f h s ∙ ground arith)

abbrev AreFiles : List Text → List Text → Type 0
AreFiles s fs = All (λ f. is_file f s ≡ true) fs

insert_all-AreFiles : (fs s : List Text) → AreFiles (insert_all fs s) fs
unfolding insert_all
insert_all-AreFiles [] s = tt
insert_all-AreFiles (f ∷ fs) s =
    let e = insert_file-is_file f f s in
    let t = text_eq_iff f f in
    (
      insert_all-keeps f fs (insert_file f s) (ground arith),
      insert_all-AreFiles fs (insert_file f s),
    )

job_files-keeps :
    (h : Text) (ls : List (List Text)) (s : List Text)
    → is_file h s ≡ true
    → is_file h (job_files ls s) ≡ true
unfolding job_files
job_files-keeps h [] s m = m
job_files-keeps h (l ∷ ls) s m = job_files-keeps h ls (insert_all l s) (insert_all-keeps h l s m)

AreFiles-keeps :
    (ls : List (List Text)) (s fs : List Text) → AreFiles s fs → AreFiles (job_files ls s) fs
AreFiles-keeps ls s [] a = tt
AreFiles-keeps ls s (f ∷ fs) a = (job_files-keeps f ls s a.0, AreFiles-keeps ls s fs a.1)

pub job_files-AreFiles :
    (ls : List (List Text)) (s : List Text) → All (AreFiles (job_files ls s)) ls
unfolding job_files
job_files-AreFiles [] s = tt
job_files-AreFiles (l ∷ ls) s = (
  AreFiles-keeps ls (insert_all l s) l (insert_all-AreFiles l s),
  job_files-AreFiles ls (insert_all l s),
)

chain-Within :
    (files : List Text) (v : ℕ) (fs : List Text)
    → v < length files
    → AreFiles files fs
    → Within (length files) (chain files v fs)
unfolding chain
chain-Within files v [] l a = tt
chain-Within files v (f ∷ fs) l a =
    let i = index_of-lt f files a.0 in ((l, i), chain-Within files (index_of f files) fs i a.1)

list_edges-Within :
    (files l : List Text) (es : List (ℕ × ℕ))
    → list_edges files l ≡ some es
    → AreFiles files l
    → Within (length files) es
unfolding list_edges
list_edges-Within files [] es h a = absurd (ground arith)
list_edges-Within files (f ∷ []) es h a = absurd (ground arith)
list_edges-Within files (f ∷ g ∷ gs) es h a =
    let e : chain files (index_of f files) (g ∷ gs) ≡ es = cc in
    subst (Within (length files)) e
      (chain-Within files (index_of f files) (g ∷ gs) (index_of-lt f files a.0) a.1)

pub bind_some {ℓ κ} :
    {A : Type ℓ} {B : Type κ} (m : Option A) (f : A → Option B) {b : B}
    → (m >>= f) ≡ some b
    → (a : A) × (m ≡ some a) × (f a ≡ some b)
bind_some (some a) f h = (a, refl, h)
bind_some none f h = absurd (ground arith)

pub all_edges-Within :
    (files : List Text) (ls : List (List Text)) (es : List (ℕ × ℕ))
    → all_edges files ls ≡ some es
    → All (AreFiles files) ls
    → Within (length files) es
unfolding all_edges
all_edges-Within files [] es h a = let e : [] ≡ es = cc in subst (Within (length files)) e tt
all_edges-Within files (l ∷ ls) es h a =
    let (ds, d, h') = bind_some (list_edges files l) _ h in
    let (rest, r, s) = bind_some (all_edges files ls) _ h' in
    let e : ds ++ rest ≡ es = cc in
    subst (Within (length files)) e (
      All-append (λ (e : ℕ × ℕ). (e.0 < length files) × (e.1 < length files)) ds rest
        (list_edges-Within files l ds d a.0) (all_edges-Within files ls rest r a.1))
