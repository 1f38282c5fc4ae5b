-- ===== src/Jobs/Payload.antt =====
-- The job script jobs/autotest/many_code.py: a text literal of 7104 equal rows and two calls of
-- print. It is the longest script of the load tests, made to send much code to the workers.
use prun.Base.{
  ℕ, zero, suc, ◌*◌, ◌≡◌, refl, List, [], ◌∷◌, ◌++◌, Text, codes, length, replicate, length-append,
  arith,
}

-- One row of the literal.
abbrev pub row : Text
row = codes "1234567890123456789012345678901234567890123456789012345678901234567890"

unfoldable pub rows : ℕ → List Text
rows n = replicate n row

-- The lines of the file, in pieces of 150 lines up to line 1500.
unfoldable pub lines_1 : List Text
lines_1 = codes "'''" ∷ rows 149

unfoldable pub lines_151 : List Text
lines_151 = rows 150

unfoldable pub lines_301 : List Text
lines_301 = rows 150

unfoldable pub lines_451 : List Text
lines_451 = rows 150

unfoldable pub lines_601 : List Text
lines_601 = rows 150

unfoldable pub lines_751 : List Text
lines_751 = rows 150

unfoldable pub lines_901 : List Text
lines_901 = rows 150

unfoldable pub lines_1051 : List Text
lines_1051 = rows 150

unfoldable pub lines_1201 : List Text
lines_1201 = rows 150

unfoldable pub lines_1351 : List Text
lines_1351 = rows 150

unfoldable pub lines_1501 : List Text
lines_1501 = rows 5605

unfoldable pub lines_7106 : List Text
lines_7106 =
    codes "'''"
    ∷ []
    ∷ codes "print( \"Hello, Python!\" )"
    ∷ codes "print( \"taskId:%d, numTasks:%d\" % (taskId, numTasks) )"
    ∷ []

-- A newline behind each line.
abbrev pub unlines : List Text → Text
unlines [] = []
unlines (l ∷ ls) = l ++ 10 ∷ unlines ls

-- The script as a writer may send it, piece by piece.
unfoldable pub many_code : List Text
unfolding lines_1 lines_151 lines_301 lines_451 lines_601 lines_751 lines_901 lines_1051 lines_1201
    lines_1351 lines_1501 lines_7106
many_code =
    unlines lines_1
    ∷ unlines lines_151
    ∷ unlines lines_301
    ∷ unlines lines_451
    ∷ unlines lines_601
    ∷ unlines lines_751
    ∷ unlines lines_901
    ∷ unlines lines_1051
    ∷ unlines lines_1201
    ∷ unlines lines_1351
    ∷ unlines lines_1501
    ∷ unlines lines_7106
    ∷ []

length-unlines-rows : (n : ℕ) → length (unlines (rows n)) ≡ 71 * n
unfolding rows
length-unlines-rows zero = refl
length-unlines-rows (suc n) = omega (arith, length-unlines-rows n)

-- The pieces together.
abbrev pub concat : List Text → Text
concat [] = []
concat (p ∷ ps) = p ++ concat ps

-- The file has 504474 bytes, which is below the worker's limit of 512 * 1024 - 1 for a script.
length-many_code : length (concat many_code) ≡ 504474
unfolding many_code
length-many_code = simp (length-append, length-unlines-rows)
