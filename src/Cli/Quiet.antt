-- ===== src/Cli/Quiet.antt =====
-- What reports no outcome: start, the deletion of expired jobs, the reports on children.
use posix_printer_spooler.Prelude.{
  ℕ, zero, suc, ◌-◌, refl, ◌∙◌, ℤ, int_eq, List, [], ◌∷◌, ltb, arith, if_elim, for_range-keeps,
}
use posix_printer_spooler.Platform.{Platform, WaitStatus}
use posix_printer_spooler.Spooler.{Spooler}
use posix_printer_spooler.Printers.{printer_manager_initialize, printer_manager_cleanup}
use posix_printer_spooler.Jobs.{job_manager_initialize}
use posix_printer_spooler.Expiry.{
  shift_slot, compact, remove_job, is_expired, expiry_round, expiry_loop,
  delete_expired_jobs_if_needed,
}
use posix_printer_spooler.Children.{
  update_job, match_job, child_report, child_reports, handle_child_status_updates,
}
use posix_printer_spooler.Commands.Reports.{IsQuiet, try_scheduling_jobs-IsQuiet}
use posix_printer_spooler.Cli.{initialize}

module _ {P : Platform} where
  pub initialize-IsQuiet : (s : Spooler P) → IsQuiet s (initialize s)
  unfolding initialize printer_manager_initialize printer_manager_cleanup job_manager_initialize
  initialize-IsQuiet s =
      if_elim (IsQuiet s) s.initialized _ _ refl
        (for_range-keeps (IsQuiet s) _ (λ i r h. h) s.number_of_registered_printers 0 s refl)

  compact-IsQuiet : (i : ℕ) (s : Spooler P) → IsQuiet s (compact i s)
  unfolding compact
  compact-IsQuiet i s =
      for_range-keeps (IsQuiet s) shift_slot (λ j r h. h) (s.job_count - suc i) (suc i) s refl

  remove_job-IsQuiet : (i : ℕ) (s : Spooler P) → IsQuiet s (remove_job i s)
  unfolding remove_job
  remove_job-IsQuiet i s = compact-IsQuiet i _

  expiry_loop-IsQuiet : (fuel now i : ℕ) (s : Spooler P) → IsQuiet s (expiry_loop fuel now i s)
  unfolding expiry_loop expiry_round
  expiry_loop-IsQuiet zero now i s = refl
  expiry_loop-IsQuiet (suc fuel) now i s =
      let round : IsQuiet s (expiry_round now i s).1 =
        if_elim (λ (r : ℕ × Spooler P). IsQuiet s r.1) (is_expired now (s.job_spool i)) _ _
          (remove_job-IsQuiet i s) refl in
      if_elim (IsQuiet s) (ltb i s.job_count) _ _
        (expiry_loop-IsQuiet fuel now (expiry_round now i s).0 (expiry_round now i s).1 ∙ round)
        refl

  pub delete_expired-IsQuiet : (s : Spooler P) → IsQuiet s (delete_expired_jobs_if_needed s)
  unfolding delete_expired_jobs_if_needed
  delete_expired-IsQuiet s = expiry_loop-IsQuiet s.job_count _ 0 _

  update_job-IsQuiet : (st : WaitStatus) (i : ℕ) (s : Spooler P) → IsQuiet s (update_job st i s)
  unfolding update_job
  update_job-IsQuiet st i s = ground arith

  child_report-IsQuiet :
      (pid : ℤ) (st : WaitStatus) (s : Spooler P) → IsQuiet s (child_report pid st s)
  unfolding child_report match_job
  child_report-IsQuiet pid st s =
      for_range-keeps (IsQuiet s) (match_job pid st)
        (λ i r h.
          if_elim (IsQuiet s) (int_eq (r.job_spool i).pgid pid) _ _ (update_job-IsQuiet st i r ∙ h)
            h)
        s.job_count 0 s refl

  child_reports-IsQuiet :
      (news : List (ℤ × WaitStatus)) (s : Spooler P) → IsQuiet s (child_reports news s)
  unfolding child_reports
  child_reports-IsQuiet [] s = refl
  child_reports-IsQuiet ((pid, st) ∷ news) s =
      child_reports-IsQuiet news (child_report pid st s) ∙ child_report-IsQuiet pid st s

  pub updates-IsQuiet :
      (news : List (ℤ × WaitStatus)) (s : Spooler P)
      → IsQuiet s (handle_child_status_updates news s)
  unfolding handle_child_status_updates
  updates-IsQuiet news s =
      if_elim (IsQuiet s) s.child_signal_received _ _
        (try_scheduling_jobs-IsQuiet _ ∙ child_reports-IsQuiet news _) refl
