-- ===== src/Node.antt =====
-- The script runner node/node.py: it reads a script from a FIFO, executes it, and writes a status
-- to another FIFO.
pub mod Reading
pub mod Status
mod Checks
use prun.Base.{
  ℕ, zero, suc, Bool, true, false, Option, none, some, List, [], ◌∷◌, ◌++◌, Text, codes, length,
  ltb, leb, take, drop, if◌then◌else◌,
}
use prun.Base.Int.{ℤ, pos_part}
use prun.Admin.Words.{strip}
use prun.Admin.Numbers.{int}

-- A FIFO as the pieces that its writer makes available, one after the other; behind them is the end
-- of file. A read of at most `n` bytes takes no more than one piece.
abbrev pub Fifo : Type 0
Fifo = List Text

-- os.read(fifo, n): the bytes read, none at the end of file, and what is left
unfoldable pub os_read : ℕ → Fifo → Text × Fifo
os_read n [] = ([], [])
os_read n ([] ∷ ps) = os_read n ps
os_read n ((c ∷ p) ∷ ps) =
    if leb (length (c ∷ p)) n then (c ∷ p, ps) else (take n (c ∷ p), drop n (c ∷ p) ∷ ps)

-- `while len(bytes) < scriptLen: bytes += os.read(fifo, scriptLen)`, with fuel; `none` means that
-- the loop still runs when the fuel is used up.
unfoldable pub read_loop : ℕ → ℕ → Text → Fifo → Option (Text × Fifo)
read_loop zero n bytes fifo = none
read_loop (suc fuel) n bytes fifo =
    let rest = (let (got, fifo') = os_read n fifo in read_loop fuel n (bytes ++ got) fifo') in
    if ltb (length bytes) n then rest else some (bytes, fifo)

-- How `exec` of a script ends: `exits` is a SystemExit, which `except Exception` lets pass.
pub data Outcome : Type 0 where
  finishes raises exits : Outcome

-- What the runner meets outside: whether the FIFOs open, whether bytes are UTF-8, and what a script
-- does with its globals taskId, numTasks and jobId.
pub record World : Type 0 where
  pub read_opens : Bool
  pub write_opens : Bool
  pub is_utf8 : Text → Bool
  pub execute : Text → ℤ → ℤ → Text → Outcome

-- sys.argv[1:7]
pub record Arguments : Type 0 where
  pub write_fifo : Text
  pub read_fifo : Text
  pub script_len : Text
  pub task_id : Text
  pub num_tasks : Text
  pub job_id : Text

abbrev pub exec_outcome : World → Text → ℤ → ℤ → Text → Outcome
exec_outcome w s task tasks job = if w.is_utf8 s then w.execute s task tasks job else raises

abbrev pub ended : World → Option (Text × Fifo) → ℤ → ℤ → Text → Option Outcome
ended w none task tasks job = none
ended w (some (bytes, fifo)) task tasks job = some (exec_outcome w bytes task tasks job)

-- The loop's test with a negative `scriptLen` fails at once, as with 0.
abbrev pub opened : World → ℕ → ℤ → ℤ → ℤ → Text → Fifo → Option Outcome
opened w fuel len task tasks job fifo =
    if w.read_opens
    then ended w (read_loop fuel (pos_part len) [] fifo) task tasks job
    else some raises

abbrev pub converted : World → ℕ → Option ℤ → Option ℤ → Option ℤ → Text → Fifo → Option Outcome
converted w fuel (some len) (some task) (some tasks) job fifo =
    opened w fuel len task tasks job fifo
converted w fuel _ _ _ job fifo = some raises

-- The first `try` block: `none` means that it still runs when the fuel is used up.
unfoldable pub run_script : World → ℕ → Arguments → Fifo → Option Outcome
run_script w fuel a fifo =
    converted w fuel (int (strip a.script_len)) (int (strip a.task_id)) (int (strip a.num_tasks))
      a.job_id fifo

-- str(errCode), with NODE_SCRIPT_EXEC_FAILED = -5
abbrev pub status_text : Outcome → Text
status_text finishes = codes "0"
status_text _ = codes "-5"

-- What the second `try` block writes to the other FIFO, if the process gets there.
abbrev pub write_status : World → Outcome → Option Text
write_status w exits = none
write_status w o = if w.write_opens then some (status_text o) else none

abbrev pub written : World → Option Outcome → Option (Option Text)
written w none = none
written w (some o) = some (write_status w o)

-- The whole script: the status written, if any; the outer `none` is a run that has not ended.
unfoldable pub node : World → ℕ → Arguments → Fifo → Option (Option Text)
unfolding run_script
node w fuel a fifo = written w (run_script w fuel a fifo)
