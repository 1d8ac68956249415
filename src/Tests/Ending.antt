-- ===== src/Tests/Ending.antt =====
-- Cancellation, signals, reports on children, expiry.
use posix_printer_spooler.Prelude.{◌≡◌, refl, inl, inr, pos, success, true, some, [], ◌∷◌, arith}
use posix_printer_spooler.Platform.{sigstop, sigcont, sigterm, stopped}
use posix_printer_spooler.Spooler.{Spooler, idle, aborted}
use posix_printer_spooler.Jobs.Consistency.{Holds, IsConsistent}
use posix_printer_spooler.Text.{text, text_eq}
use posix_printer_spooler.Jobs.{queue_job, submit_print_job, try_scheduling_jobs, schedule_job}
use posix_printer_spooler.Prelude.{for_range, first_index, none}
use posix_printer_spooler.Platform.{signaled}
use posix_printer_spooler.Spooler.{running, paused}
use posix_printer_spooler.Children.{child_report}
use posix_printer_spooler.Children.Stale.{stale_report_breaks}
use posix_printer_spooler.Toy.{toy_path, type_named, extension}
use posix_printer_spooler.Control.{cancel_job, pause_job, resume_job}
use posix_printer_spooler.Control.Cancel.{cancel-succeeds_iff, cancel_effect, signals}
use posix_printer_spooler.Control.Signals.{pause_job-Signals, resume_job-Signals}
use posix_printer_spooler.Expiry.{delete_expired_jobs_if_needed, remove_job, compact}
use posix_printer_spooler.Expiry.Duplicates.{HasUniqueIds, remove-submit_duplicates}
use posix_printer_spooler.Expiry.Refinement.{jobs_of, delete_expired-refines}
use posix_printer_spooler.Children.{handle_child_status_updates}
use posix_printer_spooler.Children.Consistency.{updates-IsConsistent}
use posix_printer_spooler.Toy.{toy}
use posix_printer_spooler.Tests.States.{printing, job_in, printing-IsConsistent}

cancel-succeeds_iff_example : (cancel_job (pos 0) printing).0 ≡ success
cancel-succeeds_iff_example =
    (cancel-succeeds_iff (pos 0) printing).0.1 (0, refl, omega arith, inr (inl refl))

cancel_effect_example : (((cancel_job (pos 0) printing).1).printer_registry 0).status ≡ idle
cancel_effect_example =
    ground (arith, (cancel_effect 0 printing (omega arith) (inr (inl refl))).freed 0)

cancel_sends : signals (cancel_job (pos 0) printing).1.trace ≡ (pos 1200, sigterm) ∷ []
cancel_sends = (cancel_effect 0 printing (omega arith) (inr (inl refl))).signalled

pause_job-Signals_example : signals (pause_job (pos 0) printing).1.trace ≡ (pos 1200, sigstop) ∷ []
pause_job-Signals_example = ((pause_job-Signals (pos 0) printing).hit 0 refl (omega arith) refl).1

-- The job was paused.
abbrev held : Spooler toy
held = record printing { job_spool = λ i. job_in paused (some 0) }

resume_job-Signals_example : signals (resume_job (pos 0) held).1.trace ≡ (pos 1200, sigcont) ∷ []
resume_job-Signals_example = ((resume_job-Signals (pos 0) held).hit 0 refl (omega arith) refl).1

-- The job has ended 20 seconds ago.
abbrev ended : Spooler toy
ended = record (record printing { world = 120 }) { job_spool = λ i. job_in aborted (some 0) }

delete_expired-refines_example : jobs_of (delete_expired_jobs_if_needed ended) ≡ []
delete_expired-refines_example = (delete_expired-refines ended).0

abbrev flagged : Spooler toy
flagged = record printing { child_signal_received = true }

updates-IsConsistent_example :
    IsConsistent (handle_child_status_updates ((pos 1200, stopped) ∷ []) flagged)
updates-IsConsistent_example =
    updates-IsConsistent ((pos 1200, stopped) ∷ []) flagged (λ k l h e. ground arith, tt)
      (record {
        bounded = printing-IsConsistent.bounded;
        placed = printing-IsConsistent.placed;
        held = printing-IsConsistent.held;
        exclusive = printing-IsConsistent.exclusive;
      })

-- After the job's cancellation, and a second job that is started on the same printer.
abbrev reassigned : Spooler toy
reassigned = (submit_print_job (some (text "b.pdf")) none (cancel_job (pos 0) printing).1).1

reassigned_runs : (reassigned.job_spool 1).status ≡ running
unfolding cancel_job submit_print_job try_scheduling_jobs for_range schedule_job first_index text_eq
    toy_path type_named extension queue_job
reassigned_runs = refl

stale_report_breaks_example :
    Holds (child_report (pos 1200) (signaled 15) reassigned) 1 0
    × (((child_report (pos 1200) (signaled 15) reassigned).printer_registry 0).status ≡ idle)
    × (¬ IsConsistent (child_report (pos 1200) (signaled 15) reassigned))
unfolding cancel_job submit_print_job try_scheduling_jobs for_range schedule_job first_index text_eq
    toy_path type_named extension queue_job
stale_report_breaks_example =
    stale_report_breaks (pos 1200) 15 0 1 0 reassigned (omega arith) refl refl
      (omega arith, inl refl, refl) (λ e. ground arith)

-- Three jobs, each numbered by its slot.
abbrev three_jobs : Spooler toy
three_jobs = record ended {
  job_spool = λ i. record (job_in aborted (some 0)) { id = i };
  job_count = 3;
}

remove-submit_duplicates_example :
    ¬ HasUniqueIds (submit_print_job (some (text "b.pdf")) none (remove_job 0 three_jobs)).1
unfolding remove_job compact for_range type_named extension text_eq
remove-submit_duplicates_example =
    remove-submit_duplicates 0 (text "b.pdf") three_jobs (omega arith) (omega arith) (λ k l. refl)
      (λ e. cc)
