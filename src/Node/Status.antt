-- ===== src/Node/Status.antt =====
-- The status that node/node.py reports for a script.
use prun.Base.{ℕ, ◌<◌, ◌≡◌, ap, true, none, some, [], length, ◌∙◌}
use prun.Base.Int.{ℤ, pos}
use prun.Admin.Words.{strip}
use prun.Admin.Numbers.{int}
use prun.Node.{Fifo, read_loop, World, Arguments, run_script, written, node, ended}
use prun.Node.Reading.{stream, read_loop_starved}

-- Arguments as the worker gives them: three numbers, the first the length of the script.
pub record AreNumbers (a : Arguments) (len : ℕ) (task tasks : ℤ) : Type 0 where
  pub len_is : int (strip a.script_len) ≡ some (pos len)
  pub task_is : int (strip a.task_id) ≡ some task
  pub tasks_is : int (strip a.num_tasks) ≡ some tasks

module _ (w : World) (a : Arguments) (len : ℕ) (task tasks : ℤ) (opens : w.read_opens ≡ true)
    (numbers : AreNumbers a len task tasks) where
  run_script_lem :
      (fuel : ℕ) (f : Fifo)
      → run_script w fuel a f ≡ ended w (read_loop fuel len [] f) task tasks a.job_id
  unfolding run_script
  run_script_lem fuel f = rw (numbers.len_is, numbers.task_is, numbers.tasks_is, opens)

  -- Where the arguments are numbers, the length not negative, and the script FIFO opens: if the
  -- writer closes it before it has sent the announced length, the runner hangs and reports nothing.
  pub node_hangs : (fuel : ℕ) (f : Fifo) → length (stream f) < len → node w fuel a f ≡ none
  unfolding node
  node_hangs fuel f h = ap (written w) (
      run_script_lem fuel f
      ∙ ap (λ o. ended w o task tasks a.job_id) (read_loop_starved fuel len f h))
