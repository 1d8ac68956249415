-- ===== src/Children.antt =====
-- src/cli.c: the SIGCHLD flag and handle_child_status_updates. The results of `waitpid` enter as the
-- list of the reports that it gives, in order, until it returns 0 or less.
pub mod Consistency
pub mod Stale
use posix_printer_spooler.Prelude.{
  ℕ, ℤ, true, false, Option, none, some, List, [], ◌∷◌, int_eq, if◌then◌else◌, for_range,
}
use posix_printer_spooler.Platform.{Platform, WaitStatus, stopped, continued, exited, signaled}
use posix_printer_spooler.Spooler.{
  JobStatus, running, paused, finished, aborted, idle, Spooler, ◌▷◌, emit, set_job,
  set_printer_status, printer_name, time_now, job_status, job_finished, job_aborted, printer_status,
}
use posix_printer_spooler.Jobs.{try_scheduling_jobs}
use posix_printer_spooler.Control.{mark_aborted}

module _ {P : Platform} where
  unfoldable pub sigchld_handler : Spooler P → Spooler P
  sigchld_handler s = record s { child_signal_received = true }

  abbrev set_job_status : ℕ → JobStatus → Spooler P → Spooler P
  set_job_status i st s = set_job i (record (s.job_spool i) { status = st }) s

  abbrev mark_finished : ℕ → Spooler P → Spooler P
  mark_finished i s =
      let (now, s₁) = time_now s in
      set_job i (record (s₁.job_spool i) { status = finished; status_changed_at = now }) s₁

  -- `if (job->target_printer) { … }`
  abbrev pub release_printer : Option ℕ → Spooler P → Spooler P
  release_printer none s = s
  release_printer (some p) s =
      s ▷ set_printer_status p idle ▷ emit (printer_status (printer_name p s) idle)

  -- The branches on the status of the child, for the job in slot `i`.
  unfoldable pub update_job : WaitStatus → ℕ → Spooler P → Spooler P
  update_job stopped i s = s ▷ set_job_status i paused ▷ emit (job_status (s.job_spool i).id paused)
  update_job continued i s =
      s ▷ set_job_status i running ▷ emit (job_status (s.job_spool i).id running)
  update_job (exited code) i s =
      s
      ▷ mark_finished i
      ▷ emit (job_status (s.job_spool i).id finished)
      ▷ emit (job_finished (s.job_spool i).id code)
      ▷ release_printer (s.job_spool i).target_printer
  update_job (signaled signum) i s =
      s
      ▷ mark_aborted i
      ▷ emit (job_status (s.job_spool i).id aborted)
      ▷ emit (job_aborted (s.job_spool i).id signum)
      ▷ release_printer (s.job_spool i).target_printer

  -- The body of the loop over the jobs.
  unfoldable pub match_job : ℤ → WaitStatus → ℕ → Spooler P → Spooler P
  unfolding update_job
  match_job pid status i s = if int_eq (s.job_spool i).pgid pid then update_job status i s else s

  unfoldable pub child_report : ℤ → WaitStatus → Spooler P → Spooler P
  unfolding match_job
  child_report pid status s = for_range (match_job pid status) s.job_count 0 s

  unfoldable pub child_reports : List (ℤ × WaitStatus) → Spooler P → Spooler P
  unfolding child_report
  child_reports [] s = s
  child_reports ((pid, status) ∷ rest) s = child_reports rest (child_report pid status s)

  unfoldable pub handle_child_status_updates : List (ℤ × WaitStatus) → Spooler P → Spooler P
  unfolding child_reports
  handle_child_status_updates reports s =
      if s.child_signal_received
      then record s { child_signal_received = false } ▷ child_reports reports ▷ try_scheduling_jobs
      else s
