-- ===== src/Node/Checks.antt =====
-- Tests of the model of node/node.py, and its theorems at concrete inputs.
use prun.Base.{◌≡◌, refl, true, none, some, [], ◌∷◌, Text, codes, arith}
use prun.Admin.Words.{strip, is_space}
use prun.Admin.Numbers.{int}
use prun.Node.{Fifo, os_read, read_loop, Outcome, World, Arguments, node}
use prun.Node.Reading.{read_loop_starved}

abbrev fifo : Fifo
fifo = codes "pri" ∷ codes "nt(1)" ∷ []

-- Every script finishes, and every text is UTF-8.
abbrev world : World
world = record {
  read_opens = true;
  write_opens = true;
  is_utf8 = λ s. true;
  execute = λ s task tasks job. Outcome.finishes;
}

abbrev arguments_of : Text → Arguments
arguments_of len = record {
  write_fifo = codes "w";
  read_fifo = codes "r";
  script_len = len;
  task_id = codes "0";
  num_tasks = codes "2";
  job_id = codes "17";
}

abbrev given : Arguments
given = arguments_of (codes "8")

node_finishes : node world 9 given fifo ≡ some (some (codes "0"))
unfolding node read_loop os_read int strip is_space
node_finishes = refl

node_bad_length : node world 9 (arguments_of (codes "x")) fifo ≡ some (some (codes "-5"))
unfolding node read_loop os_read int strip is_space
node_bad_length = refl

read_loop_starved_example : read_loop 1000 9 [] fifo ≡ none
read_loop_starved_example = read_loop_starved 1000 9 fifo (omega arith)
