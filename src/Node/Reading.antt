-- ===== src/Node/Reading.antt =====
-- The read loop of node/node.py.
use prun.Base.{
  ℕ, zero, suc, ◌+◌, ◌-◌, ◌≤◌, ◌<◌, ◌⊎◌, ◌≡◌, refl, ap, sym, ◌∙◌, none, some, [], ◌∷◌, ◌++◌, Text,
  length, leb, take, drop, length-append, length-take, append-take-drop, append_assoc, append-nil,
  Bool-cases, inl, inr, arith,
}
use native.Mathlib.Decide.{dec_lt}
use prun.Node.{Fifo, os_read, read_loop}

-- All the bytes that the writer sends.
abbrev pub stream : Fifo → Text
stream [] = []
stream (p ∷ ps) = p ++ stream ps

os_read-stream : (n : ℕ) (f : Fifo) → (os_read n f).0 ++ stream (os_read n f).1 ≡ stream f
unfolding os_read
os_read-stream n [] = refl
os_read-stream n ([] ∷ ps) = os_read-stream n ps
os_read-stream n ((c ∷ p) ∷ ps) = elim (Bool-cases (leb (length (c ∷ p)) n)) [
  | inl e ↦ rw e
  | inr e ↦ rw e (
      sym (append_assoc (take n (c ∷ p)) (drop n (c ∷ p)) (stream ps))
      ∙ ap (λ t. t ++ stream ps) (append-take-drop n (c ∷ p)))
]

length-os_read-le : (n : ℕ) (f : Fifo) → length (os_read n f).0 ≤ n
unfolding os_read
length-os_read-le n [] = omega arith
length-os_read-le n ([] ∷ ps) = length-os_read-le n ps
length-os_read-le n ((c ∷ p) ∷ ps) = ground (arith, length-take n (c ∷ p))

-- A read with room for a byte gets one, unless the stream has ended.
os_read-progress : (n : ℕ) (f : Fifo) → 0 < n → 0 < length (stream f) → 0 < length (os_read n f).0
unfolding os_read
os_read-progress n [] h k = elim k [ ]
os_read-progress n ([] ∷ ps) h k = os_read-progress n ps h k
os_read-progress n ((c ∷ p) ∷ ps) h k = ground (arith, length-take n (c ∷ p))

os_read-length :
    (n : ℕ) (f : Fifo)
    → length (os_read n f).0 + length (stream (os_read n f).1) ≡ length (stream f)
os_read-length n f =
    sym (length-append (os_read n f).0 (stream (os_read n f).1)) ∙ ap length (os_read-stream n f)

-- What a finished loop returns: the stream split in two, with at least `n` bytes read and fewer
-- than `2 * n` (or what was read before, if that was enough).
pub record Read (n : ℕ) (bytes : Text) (f : Fifo) (r : Text × Fifo) : Type 0 where
  pub split : r.0 ++ stream r.1 ≡ bytes ++ stream f
  pub enough : n ≤ length r.0
  pub below : (length r.0 < n + n) ⊎ (r.0 ≡ bytes)

read_loop-step :
    (fuel n : ℕ) (bytes : Text) (f : Fifo)
    → length bytes < n
    → read_loop (suc fuel) n bytes f ≡ read_loop fuel n (bytes ++ (os_read n f).0) (os_read n f).1
unfolding read_loop
read_loop-step fuel n bytes f h = ground arith

read_loop-stop :
    (fuel n : ℕ) (bytes : Text) (f : Fifo)
    → n ≤ length bytes
    → read_loop (suc fuel) n bytes f ≡ some (bytes, f)
unfolding read_loop
read_loop-stop fuel n bytes f h = ground arith

Read-step :
    (n : ℕ) (bytes : Text) (f : Fifo) (r : Text × Fifo)
    → length bytes < n
    → Read n (bytes ++ (os_read n f).0) (os_read n f).1 r
    → Read n bytes f r
Read-step n bytes f r h d = record {
  split =
      d.split
      ∙ append_assoc bytes (os_read n f).0 (stream (os_read n f).1)
      ∙ ap (λ t. bytes ++ t) (os_read-stream n f);
  enough = d.enough;
  below = inl (length_bound d.below);
}
  where
    length_bound : (length r.0 < n + n) ⊎ (r.0 ≡ bytes ++ (os_read n f).0) → length r.0 < n + n
    length_bound (inl k) = k
    length_bound (inr e) =
        omega (arith, ap length e, length-append bytes (os_read n f).0, length-os_read-le n f)

-- When the writer sends `n` bytes or more, the loop ends within `n + 1` rounds.
read_loop-total :
    (fuel n : ℕ) (bytes : Text) (f : Fifo)
    → n - length bytes < fuel
    → n ≤ length bytes + length (stream f)
    → (r : Text × Fifo) × (read_loop fuel n bytes f ≡ some r) × Read n bytes f r
read_loop-total zero n bytes f h k = elim h [ ]
read_loop-total (suc fuel) n bytes f h k = elim (dec_lt (length bytes) n) [
  | yes lt ↦
      let more = length-append bytes (os_read n f).0 in
      let (r, e, d) =
        read_loop-total fuel n (bytes ++ (os_read n f).0) (os_read n f).1
          (omega (arith, more, os_read-progress n f (omega arith) (omega arith)))
          (omega (arith, more, os_read-length n f)) in
      (r, read_loop-step fuel n bytes f lt ∙ e, Read-step n bytes f r lt d)
  | no ge ↦
      let enough : n ≤ length bytes = omega arith in
      (
        (bytes, f),
        read_loop-stop fuel n bytes f enough,
        record { split = refl; enough = enough; below = inr refl },
      )
]

read_loop-zero : (n : ℕ) (bytes : Text) (f : Fifo) → read_loop zero n bytes f ≡ none
unfolding read_loop
read_loop-zero n bytes f = refl

read_loop-starves :
    (fuel n : ℕ) (bytes : Text) (f : Fifo)
    → length bytes + length (stream f) < n
    → read_loop fuel n bytes f ≡ none
read_loop-starves zero n bytes f h = read_loop-zero n bytes f
read_loop-starves (suc fuel) n bytes f h =
    read_loop-step fuel n bytes f (omega arith)
    ∙ read_loop-starves fuel n (bytes ++ (os_read n f).0) (os_read n f).1
        (omega (arith, length-append bytes (os_read n f).0, os_read-length n f))

-- If the writer sends the announced number of bytes or more, the loop ends, within one round for
-- each of those bytes and one more: what it read and what is left in the FIFO are what was sent, in
-- order, and it read at least the announced number and at most twice that.
pub read_loop_complete :
    (n : ℕ) (f : Fifo)
    → n ≤ length (stream f)
    → (r : Text × Fifo) × (read_loop (n + 1) n [] f ≡ some r)
      × (r.0 ++ stream r.1 ≡ stream f)
      × (n ≤ length r.0)
      × (length r.0 ≤ n + n)
read_loop_complete n f h =
    let (r, e, d) = read_loop-total (n + 1) n [] f (omega arith) (omega arith) in
    (
      r,
      e,
      d.split,
      d.enough,
      elim d.below [ inl k ↦ omega arith | inr k ↦ omega (arith, ap length k) ],
    )

-- If the writer closes the FIFO before it has sent the announced number of bytes, the loop never
-- ends: it still runs after any number of rounds.
pub read_loop_starved :
    (fuel n : ℕ) (f : Fifo) → length (stream f) < n → read_loop fuel n [] f ≡ none
read_loop_starved fuel n f h = read_loop-starves fuel n [] f (omega arith)

split_all : (xs ys : Text) → length ys ≡ 0 → xs ++ ys ≡ xs
split_all xs [] h = append-nil xs
split_all xs (y ∷ ys) h = absurd (omega arith)

-- If the writer sends exactly the announced number of bytes, in whatever pieces, the loop ends and
-- what it read is what was sent.
pub read_loop-exact :
    (f : Fifo)
    → (rest : Fifo) × (read_loop (length (stream f) + 1) (length (stream f)) [] f
        ≡ some (stream f, rest))
read_loop-exact f =
    let (r, e, split, enough, below) = read_loop_complete (length (stream f)) f (omega arith) in
    let none_left : length (stream r.1) ≡ 0 =
      omega (arith, ap length split, length-append r.0 (stream r.1)) in
    (r.1, e ∙ ap (λ (t : Text). some (t, r.1)) (sym (split_all r.0 (stream r.1) none_left) ∙ split))
