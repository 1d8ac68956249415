-- ===== src/Control.antt =====
-- src/job_manager.c: cancel_job, pause_job and resume_job.
pub mod Cancel
pub mod Signals
use posix_printer_spooler.Prelude.{
  ℕ, ℤ, pos, negsuc, success, failure, Option, none, some, leb, if◌then◌else◌,
}
use posix_printer_spooler.Platform.{Platform, sigstop, sigcont, sigterm}
use posix_printer_spooler.Spooler.{
  created, running, paused, aborted, idle, Spooler, ◌▷◌, emit, set_job, set_printer_status,
  printer_name, time_now, kill_group, job_status, job_aborted, printer_status,
}

module _ {P : Platform} where
  -- `job->status = JOB_ABORTED; job->status_changed_at = time(NULL);`
  abbrev pub mark_aborted : ℕ → Spooler P → Spooler P
  mark_aborted i s =
      let (now, s₁) = time_now s in
      set_job i (record (s₁.job_spool i) { status = aborted; status_changed_at = now }) s₁

  abbrev report_aborted : ℕ → Spooler P → Spooler P
  report_aborted i s = emit (job_aborted (s.job_spool i).id 0) s

  -- The part after the signals. A job that runs has a printer: through NULL the write is undefined.
  abbrev pub free_printer : Option ℕ → Spooler P → Spooler P
  free_printer none s = s
  free_printer (some p) s = set_printer_status p idle s

  abbrev pub report_printer : Option ℕ → Spooler P → Spooler P
  report_printer none s = s
  report_printer (some p) s = emit (printer_status (printer_name p s) idle) s

  abbrev pub terminate : ℕ → Spooler P → ℤ × Spooler P
  terminate i s =
      let job = s.job_spool i in
      (
        success,
        (kill_group job.pgid sigterm s).1
            ▷ mark_aborted i
            ▷ free_printer job.target_printer
            ▷ emit (job_status job.id aborted)
            ▷ report_printer job.target_printer
            ▷ report_aborted i,
      )

  unfoldable pub cancel_slot : ℕ → Spooler P → ℤ × Spooler P
  cancel_slot i s = elim (s.job_spool i).status [
    | created ↦ (
      success,
      s ▷ mark_aborted i ▷ emit (job_status (s.job_spool i).id aborted) ▷ report_aborted i,
    )
    | running ↦ terminate i s
    | paused ↦ terminate i (kill_group (s.job_spool i).pgid sigcont s).1
    | _ ↦ (failure, s)
  ]

  unfoldable pub cancel_job : ℤ → Spooler P → ℤ × Spooler P
  unfolding cancel_slot
  cancel_job (negsuc i) s = (failure, s)
  cancel_job (pos i) s = if leb s.job_count i then (failure, s) else cancel_slot i s

  unfoldable pub pause_job : ℤ → Spooler P → ℤ × Spooler P
  pause_job (negsuc i) s = (failure, s)
  pause_job (pos i) s = if leb s.job_count i then (failure, s) else elim (s.job_spool i).status [
    | running ↦ kill_group (s.job_spool i).pgid sigstop s
    | _ ↦ (failure, s)
  ]

  unfoldable pub resume_job : ℤ → Spooler P → ℤ × Spooler P
  resume_job (negsuc i) s = (failure, s)
  resume_job (pos i) s = if leb s.job_count i then (failure, s) else elim (s.job_spool i).status [
    | paused ↦ kill_group (s.job_spool i).pgid sigcont s
    | _ ↦ (failure, s)
  ]
