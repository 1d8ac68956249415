-- ===== src/Lib.antt =====
-- The presi printer spooler (src/*.c, include/*.h): a model of the program and the theorems about it.
--
-- Parts, and how they interact. `main` calls `run_cli` on a file of commands and then on the user;
-- `run_cli` cuts each line into tokens, hands them to the command handlers and then deletes expired
-- jobs. The handlers call the printer manager (a registry of printers) and the job manager (a table of
-- jobs). The job manager asks the printer manager for a suitable printer and forks a pipeline for each
-- job it starts; SIGCHLD sets a flag, and the hook that `sf_readline` calls before it blocks reads the
-- reports of `waitpid`, updates the jobs and schedules again.
--
-- Files. A component's module holds its definitions, its children the theorems.
--   Platform: what the program calls and does not implement: the conversions library of
--     include/conversions.h (lib/presi.a is a binary), the clock, `fork` and `killpg`. A parameter `P`.
--   Spooler: include/presi.h, printer_struct.h, job_struct.h and the static variables of src/*.c as one
--     record; the events, signals, forks and printed lines go to its field `trace`, the newest first.
--   Printers: src/printer_manager.c. Registry: names and slots; Selection: the choice of a printer.
--   Jobs: src/job_manager.c, the table, submit_print_job and try_scheduling_jobs. Scheduling: one round
--     of the scheduler; Consistency: the invariant of jobs and printers; Typing: the pipelines of a
--     scheduling pass against the types of files and printers; History: what the events tell of the
--     jobs; Progress, Submission, Ending.
--   Expiry: src/job_manager.c, delete_expired_jobs_if_needed. Compaction: the array after a removal;
--     Refinement: the clean-up as a filter on lists; Duplicates: ids after a removal; Consistency.
--   Control: src/job_manager.c, cancel_job, pause_job, resume_job. Cancel, Signals: their effects.
--   Pipeline: src/job_manager.c, the child's side of start_conversion_pipeline, over tables of
--     descriptors; the system calls are a parameter, `Kernel`, with the laws `IsPosix`. Wiring: one
--     process; Chain, Rounds, Master: the loop; Status: the exit status; Groups: the process groups, on
--     the parameter `Processes`; Groups/Signals: what the signals reach.
--   Children: src/cli.c, the SIGCHLD flag and handle_child_status_updates. Consistency; Stale: reports
--     that come after a cancellation.
--   Races: src/cli.c, the SIGCHLD handler and handle_child_status_updates as a step relation. Flag,
--     Commands: what leaves the flag set; Settling: that no report is lost.
--   Tokens: src/cli.c, split_input_line_into_tokens. Words, Layout: tokens against words.
--   Numbers: `atoi`. Decimal: the numbers that the program prints.
--   Output: the text of the printed lines, byte by byte. Fields, Listing: reading the lines about printers;
--     Session: after whole runs.
--   Commands: src/command_handler.c, the dispatch. Arguments, Types, Printers, Jobs, Help: the handlers
--     that the names say; Dispatch: the cases of the dispatch; Reports: the outcome of each
--     command; Enabling, Consistency: the invariant of jobs and printers.
--   Cli: src/cli.c, run_cli, and the calls of it in src/main.c. Batch: any file against its lines, a
--     long line being cut; Lines: the lines that reach the handlers, and their words; Ids: commands
--     typed with the number of a job; Runs: the rule that what the parts keep, a whole run keeps;
--     Quiet, Answers: the outcomes it reports; Session: the invariant of jobs and printers.
--   Main: src/main.c, with the options. Options: arguments that are all options; Operands: others.
--   Events: what the event functions tell of the printers, with a module for each part of the program;
--     Silence: the parts of the commands that tell nothing of them; Session: whole runs.
--   Lifecycle: the life of a job, and the job table as an abstract machine whose moves the events tell,
--     with a module for each part of the program that moves it; Session: whole runs.
--   Owned: the process groups that are signalled against the pipelines that were forked, over Jobs,
--     Control, Children and Commands; Session: whole runs.
--   Registered: what holds of the names and types of the printers, with the Commands; Session: whole
--     runs.
--   Settled: jobs that wait against printers that are free, over the removal of jobs; Commands; Session:
--     whole runs.
--   Prelude, Text: shared lemmas, tests, loops; C strings as lists of bytes. Toy, Tests: a concrete
--     platform, runs and witnesses.
--
-- Conventions. A pointer to a printer or a job is the index of its slot; an array is a function on
-- indices. `int` and `pid_t` are integers, `time_t` a natural number. Counters stay below 32 and 64, so
-- no addition of the program wraps. The loops over slots run for a number of rounds that is read at
-- their start, and no round changes it. The loop of Expiry takes the number of jobs as fuel, since each
-- round moves the index up or the number down by one; the loop of Tokens takes one more than the length
-- of the line, and the loop of Cli in batch mode one more than the length of the file, since each round
-- consumes a byte. The loop over the options takes its fuel as an argument.
--
-- Not modelled: what execvp runs, the mutex of src/job_manager.c (the program has one thread), failures
-- of `calloc` and `strdup`, the output file, and the code of the libraries under lib/. The `setpgid` of a
-- stage is one step with its fork, so the time when the stage is still in its master's group is left
-- out; and `atoi` gives an integer of any size, where C has no result beyond `int`. The options -q and -t
-- set variables of the event library, which the events recorded here do not depend on.
pub mod Prelude
pub mod Text
pub mod Platform
pub mod Spooler
pub mod Printers
pub mod Jobs
pub mod Pipeline
pub mod Expiry
pub mod Control
pub mod Children
pub mod Tokens
pub mod Numbers
pub mod Output
pub mod Commands
pub mod Events
pub mod Lifecycle
pub mod Cli
pub mod Owned
pub mod Registered
pub mod Settled
pub mod Races
pub mod Main
pub mod Toy
mod Tests
