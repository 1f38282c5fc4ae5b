-- ===== src/Jobs/Harness.antt =====
-- The load tests jobs/autotest/test.py and test_random.py: command lines for the admin tool, run
-- one after the other by os.system.
use prun.Base.{ℕ, zero, suc, ◌+◌, List, [], ◌∷◌, ◌++◌, Text, codes}

-- What a load test does: a shell command, a pause in seconds, a line printed.
pub data Action : Type 0 where
  system : Text → Action
  pause : ℕ → Action
  print : Text → Action

-- `for i in range(0, n): task += piece`
unfoldable pub repeat_task : ℕ → Text → Text → Text
repeat_task zero piece task = task
repeat_task (suc n) piece task = repeat_task n piece (task ++ piece)

-- `'./prun -c "' + task + '"'`
abbrev pub prun_command : Text → Action
prun_command task = system (codes "./prun -c \"" ++ task ++ codes "\"")

-- `'run ' + jobPath + ';'`, n times
unfoldable pub run_task : ℕ → Text → Text
unfolding repeat_task
run_task n path = repeat_task n (codes "run " ++ path ++ codes ";") []

abbrev pub runs : ℕ → Text → Action
runs n path = prun_command (run_task n path)

-- RunManyJobs of test.py
unfoldable pub run_many_jobs : List Action
run_many_jobs =
    runs 500 (codes "autotest/simple_one_cpu.job")
    ∷ runs 500 (codes "autotest/simple_many_cpu.job")
    ∷ runs 1 (codes "autotest/many_code.job")
    ∷ runs 50 (codes "autotest/medium.job")
    ∷ runs 10 (codes "autotest/heavy.job")
    ∷ runs 50 (codes "test.meta")
    ∷ prun_command (codes "run cron.job; run cron.meta")
    ∷ []

-- RunHeavyJobs
unfoldable pub run_heavy_jobs : List Action
run_heavy_jobs = runs 10 (codes "autotest/heavy.job") ∷ []

-- AddExistingUser
unfoldable pub add_existing_user : List Action
unfolding repeat_task
add_existing_user = prun_command (repeat_task 100 (codes "add localhost groupx;") []) ∷ []

-- StopAll, DeleteGroup, AddGroup, JobInfo, StopJob and Stat
unfoldable pub stop_all : List Action
stop_all = prun_command (codes "stopall") ∷ []

unfoldable pub delete_group : List Action
delete_group = prun_command (codes "deleteg groupx; deleteg hosts_group1") ∷ []

unfoldable pub add_group : List Action
add_group = prun_command (codes "addg hosts_group1") ∷ []

-- The digits of str(jobId) are given.
unfoldable pub job_info : Text → List Action
job_info id = prun_command (codes "info " ++ id) ∷ []

unfoldable pub stop_job : Text → List Action
stop_job id = prun_command (codes "stop " ++ id) ∷ []

unfoldable pub stat : List Action
stat = prun_command (codes "stat; jobs; ls;") ∷ []

-- `for i in range(0, n): actions`
unfoldable pub times : ℕ → List Action → List Action
times zero actions = []
times (suc n) actions = actions ++ times n actions

-- The loop over random ids: the digits of the ids drawn are given, two for each round.
unfoldable pub info_and_stop : List (Text × Text) → List Action
info_and_stop [] = []
info_and_stop ((a, b) ∷ ids) = job_info a ++ stop_job b ++ info_and_stop ids

-- The body of test.py
unfoldable pub test_script : List (Text × Text) → List Action
test_script ids =
    run_many_jobs
    ++ add_existing_user
    ++ stop_all
    ++ times 10 (run_many_jobs ++ stop_all)
    ++ pause 2 ∷ stop_all
    ++ times 5 (run_heavy_jobs ++ pause 1 ∷ stop_all)
    ++ times 5 (run_many_jobs ++ pause 1 ∷ delete_group ++ pause 1 ∷ add_group ++ stop_all)
    ++ run_many_jobs
    ++ info_and_stop ids
    ++ stop_all
    ++ run_many_jobs
    ++ times 1000 stat
    ++ print (codes "done") ∷ []

-- RunManyJobs of test_random.py
unfoldable pub random_run_many_jobs : List Action
random_run_many_jobs =
    runs 500 (codes "autotest/random_fail.job") ∷ runs 500 (codes "autotest/fail.job") ∷ []

-- `for i in range(first, first + n): RunManyJobs(); time.sleep(i); StopAll()`
unfoldable pub run_and_wait : ℕ → ℕ → List Action
run_and_wait zero i = []
run_and_wait (suc n) i = random_run_many_jobs ++ pause i ∷ stop_all ++ run_and_wait n (i + 1)

unfoldable pub test_random_script : List Action
test_random_script = run_and_wait 5 0 ++ random_run_many_jobs ++ print (codes "done") ∷ []
