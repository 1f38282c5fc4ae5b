-- ===== src/Admin/Words/Laws.antt =====
-- Laws of the text functions that the admin tool `prun` calls.
use prun.Base.{ℕ, ◌≡◌, ◌≢◌, refl, ap, ◌∙◌, true, false, List, [], ◌∷◌, ◌++◌, Text, arith, All, ◌==◌}
use prun.Admin.Words.{is_space, run_and_words, words, lstrip, rstrip, strip, split_on}

words-space : (c : ℕ) (s : Text) → is_space c ≡ true → words (c ∷ s) ≡ words s
unfolding words run_and_words
words-space c s h = ground arith

words-lstrip : (s : Text) → words (lstrip s) ≡ words s
unfolding lstrip
words-lstrip [] = refl
words-lstrip (c ∷ s) = ground (arith, words-space c s, words-lstrip s)

run_and_words-rstrip : (s : Text) → run_and_words (rstrip s) ≡ run_and_words s
unfolding rstrip run_and_words
run_and_words-rstrip [] = refl
run_and_words-rstrip (c ∷ s) = ground (arith, run_and_words-rstrip s)

words-rstrip : (s : Text) → words (rstrip s) ≡ words s
unfolding words
words-rstrip s = ground (arith, run_and_words-rstrip s)

pub words-strip : (s : Text) → words (strip s) ≡ words s
unfolding strip
words-strip s = words-rstrip (lstrip s) ∙ words-lstrip s

lstrip-words-ne : (s : Text) → lstrip s ≢ [] → words s ≢ []
unfolding lstrip words run_and_words
lstrip-words-ne [] h e = h refl
lstrip-words-ne (c ∷ s) h e = ground (arith, words-space c s, lstrip-words-ne s)

rstrip-nil : rstrip [] ≡ []
unfolding rstrip
rstrip-nil = refl

-- A line that is not blank has a first word.
pub words-ne-nil : (s : Text) → strip s ≢ [] → words s ≢ []
unfolding strip
words-ne-nil s h = lstrip-words-ne s (λ e. h (ap rstrip e ∙ rstrip-nil))

-- A word: not empty, and without spaces.
abbrev pub IsWord : Text → Type 0
IsWord w = (w ≢ []) × All (λ c. is_space c ≡ false) w

run_and_words-append :
    (w s : Text) → All (λ c. is_space c ≡ false) w → run_and_words (w ++ 32 ∷ s) ≡ (w, words s)
unfolding run_and_words words is_space
run_and_words-append [] s h = refl
run_and_words-append (c ∷ w) s h = ground (arith, run_and_words-append w s)

pub words-append : (w s : Text) → IsWord w → words (w ++ 32 ∷ s) ≡ w ∷ words s
unfolding words
words-append [] s h = absurd (h.0 refl)
words-append (c ∷ w) s h = ground (arith, run_and_words-append (c ∷ w) s)

pub words-nil : words [] ≡ []
unfolding words run_and_words
words-nil = refl

run_and_words-word : (w : Text) → All (λ c. is_space c ≡ false) w → run_and_words w ≡ (w, [])
unfolding run_and_words
run_and_words-word [] h = refl
run_and_words-word (c ∷ w) h = ground (arith, run_and_words-word w h.1)

-- A word alone.
pub words-word : (w : Text) → IsWord w → words w ≡ w ∷ []
unfolding words
words-word [] h = absurd (h.0 refl)
words-word (c ∷ w) h = ground (arith, run_and_words-word (c ∷ w) h.1)

-- Words joined with a space behind each.
abbrev pub unwords : List Text → Text
unwords [] = []
unwords (w ∷ ws) = w ++ 32 ∷ unwords ws

words-unwords : (ws : List Text) → All IsWord ws → words (unwords ws) ≡ ws
words-unwords [] h = words-nil
words-unwords (w ∷ ws) h = words-append w (unwords ws) h.0 ∙ ap (◌∷◌ w) (words-unwords ws h.1)

-- The pieces with the separator `d` between them.
abbrev pub join_on : ℕ → Text → List Text → Text
join_on d p [] = p
join_on d p (q ∷ ps) = p ++ d ∷ join_on d q ps

split_on-end : (d : ℕ) (p : Text) → All (λ c. (c == d) ≡ false) p → split_on d p ≡ p ∷ []
unfolding split_on
split_on-end d [] h = refl
split_on-end d (c ∷ p) h = ground (arith, split_on-end d p)

pub split_on-append :
    (d : ℕ) (p s : Text)
    → All (λ c. (c == d) ≡ false) p
    → split_on d (p ++ d ∷ s) ≡ p ∷ split_on d s
unfolding split_on
split_on-append d [] s h = ground arith
split_on-append d (c ∷ p) s h = ground (arith, split_on-append d p s)

pub split_on-join_on :
    (d : ℕ) (p : Text) (ps : List Text)
    → All (λ c. (c == d) ≡ false) p
    → All (All (λ c. (c == d) ≡ false)) ps
    → split_on d (join_on d p ps) ≡ p ∷ ps
split_on-join_on d p [] h hs = split_on-end d p h
split_on-join_on d p (q ∷ ps) h hs =
    split_on-append d p (join_on d q ps) h ∙ ap (◌∷◌ p) (split_on-join_on d q ps hs.0 hs.1)
