-- ===== src/Jobs.antt =====
-- src/job_manager.c: the job table, submission and scheduling. A `JOB *` is the index of its slot.
pub mod Scheduling
pub mod Consistency
pub mod Progress
pub mod Ending
pub mod History
pub mod Submission
pub mod Typing
use posix_printer_spooler.Prelude.{
  ℕ, suc, ℤ, pos, negsuc, success, failure, is_negative, Bool, true, false, ◌&&◌, ◌||◌, not, Option,
  none, some, List, [], ◌∷◌, map, leb, if◌then◌else◌, for_range,
}
use posix_printer_spooler.Text.{Text, text, text_eq}
use posix_printer_spooler.Platform.{FileType, same_type, Conversion, Platform}
use posix_printer_spooler.Spooler.{
  JobStatus, created, running, deleted, busy, Job, Spooler, max_jobs, deref, ◌▷◌, emit, set_job,
  set_printer_status, printer_name, printer_type, time_now, job_created, job_status, printer_status,
  job_started, forked, printed, job_line,
}
use posix_printer_spooler.Printers.{is_idle, is_some, select_compatible_printer}

abbrev pub is_created : JobStatus → Bool
is_created created = true
is_created _ = false

-- `cmd_and_args[0]`; a defined conversion has a command.
abbrev pub program : Conversion → Text
program c = elim c.cmd_and_args [ [] ↦ [] | word ∷ rest ↦ word ]

-- The names of the commands that `sf_job_started` is given.
abbrev pub commands : Option (List Conversion) → List Text
commands none = text "cat" ∷ []
commands (some path) = map program path

-- The job that `cleanup_job` leaves in the slot.
abbrev pub cleared : Job → Job
cleared j = record j {
  input_file_path = none;
  target_printer = none;
  status = deleted;
  pgid = failure;
  created_at = 0;
  status_changed_at = 0;
}

module _ {P : Platform} where
  unfoldable pub job_manager_initialize : Spooler P → Spooler P
  job_manager_initialize s = record s { job_count = 0 }

  abbrev pub cleanup_job : ℕ → Spooler P → Spooler P
  cleanup_job i s = set_job i (cleared (s.job_spool i)) s

  unfoldable pub job_manager_cleanup : Spooler P → Spooler P
  unfolding for_range
  job_manager_cleanup s = record (for_range cleanup_job s.job_count 0 s) { job_count = 0 }

  abbrev pub get_job_count : Spooler P → ℕ
  get_job_count s = s.job_count

  unfoldable pub get_job_by_index : ℤ → Spooler P → Option ℕ
  get_job_by_index (negsuc i) s = none
  get_job_by_index (pos i) s = if leb s.job_count i then none else some i

  -- The parent's side of the fork: the child is `Pipeline`'s.
  unfoldable pub start_conversion_pipeline :
      ℕ → Option (List Conversion) → Spooler P → ℤ × Spooler P
  start_conversion_pipeline i path s =
      let (master, w) = P.fork s.world in
      if is_negative master
      then (failure, record s { world = w })
      else (master, emit (forked master (s.job_spool i) path) (record s { world = w }))

  abbrev pub set_target : ℕ → Option ℕ → Spooler P → Spooler P
  set_target i target s = set_job i (record (s.job_spool i) { target_printer = target }) s

  -- The same lines in `submit_print_job` and twice in `try_scheduling_jobs`: the pipeline runs, so
  -- the job is RUNNING and the printer BUSY.
  unfoldable pub mark_running : ℕ → ℕ → ℤ → Option (List Conversion) → Spooler P → Spooler P
  mark_running i p pid path s =
      let (now, s₁) = time_now s in
      let job = record (s₁.job_spool i) { status = running; pgid = pid; status_changed_at = now } in
      s₁
      ▷ set_job i job
      ▷ set_printer_status p busy
      ▷ emit (job_status job.id running)
      ▷ emit (printer_status (printer_name p s) busy)
      ▷ emit (job_started job.id (printer_name p s) pid (commands path))

  -- One attempt of `try_scheduling_jobs` to start a job whose printer is set.
  unfoldable pub launch : ℕ → ℕ → Option (List Conversion) → Spooler P → Spooler P
  unfolding start_conversion_pipeline mark_running
  launch i p path s =
      let (pid, s₁) = start_conversion_pipeline i path s in
      if is_negative pid then set_target i none s₁ else mark_running i p pid path s₁

  -- The two cases of the loop's body: passthrough, and a conversion path.
  unfoldable pub start_on : ℕ → FileType → ℕ → Spooler P → Spooler P
  unfolding launch
  start_on i from_type p s =
      let s₁ = set_target i (some p) s in
      if text_eq from_type.name (printer_type p s)
      then launch i p none s₁
      else elim (P.find_conversion_path from_type.name (printer_type p s) s.table) [
        | none ↦ set_target i none s₁
        | some path ↦ launch i p (some path) s₁
      ]

  -- `infer_file_type(job->input_file_path)`; a job in use has a path.
  abbrev pub job_type : ℕ → Spooler P → Option FileType
  job_type i s = P.infer_file_type (deref (s.job_spool i).input_file_path) s.table

  -- The body of the loop.
  unfoldable pub schedule_job : ℕ → Spooler P → Spooler P
  unfolding start_on select_compatible_printer
  schedule_job i s = if not (is_created (s.job_spool i).status) then s else elim (job_type i s) [
    | none ↦ s
    | some from_type ↦ elim (select_compatible_printer (some from_type) s) [
      | none ↦ s
      | some p ↦ start_on i from_type p s
    ]
  ]

  -- The bound is read again in each round; no round changes it.
  unfoldable pub try_scheduling_jobs : Spooler P → Spooler P
  try_scheduling_jobs s = for_range schedule_job (get_job_count s) 0 s

  -- The checks of `submit_print_job` on a printer that the caller names.
  abbrev pub accepts : FileType → Option ℕ → Spooler P → Bool
  accepts from_type none s = true
  accepts from_type (some p) s =
      is_idle (s.printer_registry p).status
      && (elim (s.printer_registry p).type [ none ↦ false | some type ↦ same_type type from_type ]
          || is_some (P.find_conversion_path from_type.name (printer_type p s) s.table))

  -- The new slot. Its status is still that of the slot's last use.
  abbrev pub register_job : Text → FileType → Option ℕ → Spooler P → Spooler P
  register_job file_path from_type printer s =
      let (now, s₁) = time_now s in
      let i = s.job_count in
      s₁
      ▷ set_job i (record {
        id = i;
        input_file_path = some file_path;
        target_printer = printer;
        status = (s.job_spool i).status;
        pgid = failure;
        created_at = now;
        status_changed_at = now;
      })
      ▷ emit (job_created i file_path from_type.name)

  abbrev pub count_job : Spooler P → Spooler P
  count_job s = record s { job_count = suc s.job_count }

  -- `job->target_printer->name`, where there is a printer.
  abbrev pub target_name : Option ℕ → Spooler P → Option Text
  target_name none s = none
  target_name (some p) s = some (printer_name p s)

  -- The line printed at the end of `submit_print_job`.
  abbrev pub report_job : ℕ → FileType → Spooler P → Spooler P
  report_job i from_type s =
      let job = s.job_spool i in
      emit
        (printed (
          job_line job.id from_type.name job.created_at job.status_changed_at job.status
            (deref job.input_file_path) (target_name job.target_printer s)))
        s

  -- Case 1, no printer named: the job waits, and counts.
  abbrev pub enqueue_job : ℕ → Spooler P → Spooler P
  enqueue_job i s =
      s
      ▷ set_job i (record (s.job_spool i) { status = created })
      ▷ emit (job_status (s.job_spool i).id created)
      ▷ count_job

  unfoldable pub queue_job : ℕ → FileType → Spooler P → ℤ × Spooler P
  queue_job i from_type s =
      (success, s ▷ enqueue_job i ▷ try_scheduling_jobs ▷ report_job i from_type)

  -- Case 2, a printer named.
  unfoldable pub start_job : ℕ → FileType → ℕ → Spooler P → ℤ × Spooler P
  unfolding start_conversion_pipeline mark_running
  start_job i from_type p s =
      let path = P.find_conversion_path from_type.name (printer_type p s) s.table in
      let (pid, s₁) = start_conversion_pipeline i path s in
      if is_negative pid
      then (failure, s₁)
      else (success, s₁ ▷ mark_running i p pid path ▷ count_job ▷ report_job i from_type)

  unfoldable pub submit_print_job : Option Text → Option ℕ → Spooler P → ℤ × Spooler P
  submit_print_job none printer s = (failure, s)
  submit_print_job (some file_path) printer s =
      if leb max_jobs s.job_count
      then (failure, s)
      else elim (P.infer_file_type file_path s.table) [
        | none ↦ (failure, s)
        | some from_type ↦
            if not (accepts from_type printer s) then (failure, s) else elim printer [
              | none ↦ queue_job s.job_count from_type (register_job file_path from_type none s)
              | some p ↦
                  start_job s.job_count from_type p (register_job file_path from_type (some p) s)
            ]
      ]
