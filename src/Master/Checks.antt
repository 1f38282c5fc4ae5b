-- ===== src/Master/Checks.antt =====
-- Tests of the models of the master, and their theorems at concrete inputs.
use prun.Master.FailedWorkers.{FailedWorkers}
use prun.Master.Permissions.{no_limits, is_host_permitted}
use prun.Master.Permissions.Laws.{
  host, host_to_blacklist, add_all, is_host_permitted-add_all, Addition,
}
use prun.Base.{◌≡◌, true, false, List, [], ◌∷◌, Text, codes, arith}
use prun.Master.WorkerJob.{WorkerJob}
use prun.Master.WorkerJob.Tasks.{IsValid}

abbrev planned : WorkerJob
planned = record { jobs = (3, 1 ∷ 2 ∷ []) ∷ (5, 7 ∷ []) ∷ []; exclusive = true }

abbrev other : WorkerJob
other = record { jobs = (4, 0 ∷ []) ∷ []; exclusive = false }

planned-IsValid : IsValid planned
planned-IsValid = record { keys = ground arith; sets = ground arith }

other-IsValid : IsValid other
other-IsValid = record { keys = ground arith; sets = ground arith }

abbrev failed_once : FailedWorkers
failed_once = record { failed = (3, codes "10.0.0.1" ∷ []) ∷ [] }

abbrev ip : Text
ip = codes "10.0.0.2"

abbrev additions : List Addition
additions = host (codes "a") ∷ host_to_blacklist (codes "a") ∷ host (codes "b") ∷ []

is_host_permitted-add_all_example :
    is_host_permitted (codes "c") (add_all additions no_limits) ≡ false
is_host_permitted-add_all_example = is_host_permitted-add_all additions (codes "c")
