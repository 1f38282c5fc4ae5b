-- ===== src/Lib.antt =====
-- prun: a batch system of a master, its workers, and an admin tool. The master keeps jobs in a
-- queue, plans their tasks for workers, and counts failures; a worker runs a task by handing the
-- job's script to a runner through a FIFO; the admin tool `prun` sends the user's commands to the
-- master as JSON-RPC requests.
--
-- The parts, and the files that model them:
--   * Admin (file `prun`): Words is str.split and str.strip, Numbers is int(), Commands the
--     Command_* classes and CommandDispatcher, Session the Connection and exec_command, Options
--     parse_opt, Driver user_input and main. A session is the connection's counter, the requests
--     sent, the lines printed and the seconds slept. Requests, Sequence and Spellings hold the
--     theorems. A Network says whether the master can be reached, and for each request id whether
--     it is accepted and what comes back; the JSON text itself is not modelled.
--   * Node (`node/node.py`): the script runner. A Fifo is the list of the pieces that are written to
--     it before it is closed; a World says whether the FIFOs open, which bytes are UTF-8 and how a
--     script ends. Reading and Status hold the theorems.
--   * Jobs (`jobs/example/simple.py`, `jobs/autotest/*.py`): the prime-number jobs, the commands of
--     the load tests as lists of actions, and the payload of `many_code.py` as data; Runs puts the
--     load tests and the admin tool together.
--   * Master.JobStore and Master.JobQueue (JobGroup and JobQueue of `src/master/job.h` and
--     `src/master/job.cpp`): the store of job and group objects and the containers that point to
--     them; the operations on the heap of jobs, the delayed jobs, and the lookups by id and by name.
--     Heap, Order, Pushing and Reaching are about the order of the heap, Dependencies and Completion about the
--     edges of a group, Keeping, Consistency and Deletion about the agreement of the heap, the
--     delayed jobs and the ids.
--   * Master.Permissions (the host and group lists of Job in `src/master/job.cpp`).
--   * Master.WorkerJob (WorkerTask and WorkerJob of `src/master/worker.h`, `src/master/worker.cpp`):
--     Tasks, Sums and Counts.
--   * Master.FailedWorkers (`src/master/failed_workers.h`), which takes a WorkerJob's jobs.
--   * Master.Scheduler (Scheduler of `src/master/scheduler.h` and `src/master/scheduler.cpp`, with
--     ScheduledJobs, JobExecHistory and NodeState of `src/master/scheduled_jobs.h` and
--     `src/master/node_state.h`), over the four parts above: Jobs is ScheduledJobs, Planning decides
--     which tasks a worker may get, Sending gives them and takes jobs from the JobQueue, Completion
--     and Hosts are the reports of tasks and workers, Stopping is what these and the user's commands
--     do to a job. The theorems: Limits, Fitting,
--     Rescheduling and Choosing on the limits, Frames and Searching on what stays, Bounds on CPUs,
--     Listing, Conserving, Counting, Machine and Refining on the tasks that wait and run, Forgetting on
--     stopped jobs, Accounting, Completing and Failing on busy CPUs, Choices on what is counted and
--     deleted, Shrinking on the jobs that are scheduled.
--   * Master.Timeouts (`src/master/timeout_manager.h`, `src/master/timeout_manager.cpp`): deadlines,
--     and the handlers that call the scheduler and the job queue. Deadlines is about the times,
--     Stopped about what a timeout does to a job, for which Master.Scheduler.Shrinking shows that
--     no report schedules a job again.
--   * Master.JobManager (`src/master/job_manager.h`, `src/master/job_manager.cpp`) over the JobQueue
--     and Timeouts: Descriptions makes a job of a description, Graphs a meta job of several;
--     JobManager itself keeps names and ids and pushes them, and settles the calls that the queue
--     makes back to it; Building is BuildAndPushJob. The theorems: Ids, Fresh, Arriving and
--     Restoring on ids, Cycles, Making, Files and Sources on the graph of a meta job, Filling and
--     Starting on how it starts, Deleting, Releasing and Naming on names, Watching on timeouts. The
--     parser of JSON, property trees, files, Base64, the grammar of CronJob::Parse (which is one of
--     boost::spirit) and depth_first_search are parameters: of the last it is assumed that it calls
--     back_edge for some edge unless the vertices can be ranked so that each edge leads upwards.
--   * Master.WorkerList (WorkerList of `src/master/worker.h` and `src/master/worker.cpp`): the
--     workers, named by numbers that stand for the shared objects, and the map from their IPs.
--     Addresses is about DeleteWorker, Setting about SetWorkerIP.
--   * Master.WorkerManager (`src/master/worker_manager.h`, `src/master/worker_manager.cpp`) over
--     WorkerList: the groups of workers, the registered hosts, the responses to pings and their
--     check, and the queues of achieved tasks and of commands; the calls of the scheduler and of
--     observers are kept in order, and the rounds of Pinger::Run (`src/master/ping.cpp`) are there
--     without the packets. Pings has the operations on pings, which Pinging and Responding are about;
--     Counting, Thinning, Grouping, Hosts and Reaching are about the hosts. `on_groups` is the loop
--     over the groups that three of the operations have.
--   * Master.CronManager (`src/master/cron_manager.h`, `src/master/cron_manager.cpp`) over JobManager's
--     names and calls: the handlers, which are shared by the deadlines and the names. Names is about
--     their agreement, Stopping and Silence about stopped jobs, Releasing about the names that StopJob
--     frees. The time that CronJob::Next returns is an argument.
--   * Cron (`src/common/cron.h`, `src/common/cron.cpp`): CronField in Cron itself, Bits and Fields;
--     CronJob::Next in Search, Months, Minutes and Today.
--   * Containers: what the C++ classes use of std::set and std::map. Base: shared names, numbers,
--     texts and lists.
--
-- How the code is written down here:
--   * A definition has the name of the function it models, in this language's spelling. A method is
--     a function that takes its object last and gives it back changed. Texts are lists of code
--     points; the bytes of a FIFO are lists of numbers.
--   * Python's exceptions are values of a Flow or of an Option, C++'s are `throws` in a Result.
--     Locks and log messages are left out; callbacks and the services that the queue calls are kept
--     as events, in order.
--   * std::set and std::map of integers are ascending lists; a set of texts or pointers is a list
--     without repetition, since nothing depends on its order but DeleteJobGroup and Clear, whose
--     order of deletion is then only one of those that are possible. A map of texts, the files of a
--     meta job, and the names of a handler are in the order of std::string. A heap is a sorted list, with
--     equal jobs first come, first served, where the standard leaves the order of equals open.
--   * A job object is named by its id, so the ids are natural numbers, and a pointer to a job is its
--     id: the theorems on the queue have as a hypothesis that a new job's id is not registered, which
--     Master.JobManager is about. A weak pointer of a group can be locked while some
--     container of the queue or some running function keeps the job.
--   * A node of the scheduler and the worker object at it are named by their IP. The multiset of
--     nodes is ordered by numbers of free CPUs that change meanwhile, so the standard does not
--     determine where a node is put: the state has the places that the nodes get in turn, and the
--     theorems hold for all of them. The limits of a job do not change once it is scheduled.
--   * int and int64_t counters do not overflow in the model, and an id of an int64_t that is passed as
--     an int is kept. math.sqrt is exact, as it is for the numbers that the scripts pass. size_t wraps
--     around in FixArg, where the code relies on it to refuse a value below the least one.
--
-- Fuel: the read loop of node.py needs one round for each announced byte and one more, since each
-- round that does not end the loop reads at least one byte while there are any; the loops of a
-- CronField have as many rounds as bits from the first to the last, and one more; each loop of
-- CronJob::Next is given the fuel that the theorem on it names: 61 for the minutes of an hour, 121
-- for those of two hours, 13 for the months of a year. All other loops are structural.
--
-- Not modelled: the master's ReadHosts, the senders and getters on sockets, the server side of the
-- admin protocol, statistics and history; the worker daemon; the helpers of src/common for messages, configuration and processes; the
-- runners in other languages; the grammar of CronJob::Parse; packaging. They are processes, sockets
-- and text formats around the parts above, or build on them.
pub mod Base
pub mod Admin
pub mod Node
pub mod Jobs
pub mod Containers
pub mod Master
pub mod Cron
