-- ===== src/Events/Children.antt =====
-- The reports on children against the events about printers.
use posix_printer_spooler.Prelude.{
  ℕ, suc, ℤ, int_eq, ◌<◌, ◌≡◌, refl, ◌∙◌, Bool, false, Option, none, some, List, [], ◌∷◌, arith,
  for_range-within, if_elim,
}
use posix_printer_spooler.Platform.{Platform, WaitStatus, stopped, continued, exited, signaled}
use posix_printer_spooler.Spooler.{Spooler, idle}
use posix_printer_spooler.Children.{
  release_printer, update_job, match_job, child_report, child_reports, handle_child_status_updates,
}
use posix_printer_spooler.Children.Consistency.{match_job-others}
use posix_printer_spooler.Events.{announced, IsAnnounced, Silent-IsAnnounced, Tells-IsAnnounced}
use posix_printer_spooler.Events.Jobs.{try_scheduling_jobs-IsAnnounced}

module _ {P : Platform} where
  release_printer-IsAnnounced :
      (target : Option ℕ) (s : Spooler P)
      → ((p : ℕ) → target ≡ some p → p < s.number_of_registered_printers)
      → IsAnnounced s
      → IsAnnounced (release_printer target s)
  unfolding announced
  release_printer-IsAnnounced none s valid a = a
  release_printer-IsAnnounced (some p) s valid a =
      Tells-IsAnnounced p idle s (release_printer (some p) s) (valid p refl)
        (record {
          same_printers = refl;
          printer = ground arith;
          others = λ q ne. ground (arith, ne);
          view = λ name. ground arith;
        })
        (λ k q h e. a.targets k q h e) a

  update_job-IsAnnounced :
      (st : WaitStatus) (i : ℕ) (s : Spooler P)
      → i < s.job_count
      → IsAnnounced s
      → IsAnnounced (update_job st i s)
  unfolding update_job announced
  update_job-IsAnnounced stopped i s below a =
      Silent-IsAnnounced s (update_job stopped i s)
        (record { same_printers = refl; same_registry = refl; view = λ name. refl })
        (λ k p h e. ground (arith, a.targets k p)) a
  update_job-IsAnnounced continued i s below a =
      Silent-IsAnnounced s (update_job continued i s)
        (record { same_printers = refl; same_registry = refl; view = λ name. refl })
        (λ k p h e. ground (arith, a.targets k p)) a
  update_job-IsAnnounced (exited code) i s below a =
      release_printer-IsAnnounced (s.job_spool i).target_printer _ (λ p e. a.targets i p below e)
        (Silent-IsAnnounced s _
          (record { same_printers = refl; same_registry = refl; view = λ name. refl })
          (λ k p h e. ground (arith, a.targets k p)) a)
  update_job-IsAnnounced (signaled signum) i s below a =
      release_printer-IsAnnounced (s.job_spool i).target_printer _ (λ p e. a.targets i p below e)
        (Silent-IsAnnounced s _
          (record { same_printers = refl; same_registry = refl; view = λ name. refl })
          (λ k p h e. ground (arith, a.targets k p)) a)

  -- The invariant, with the number of jobs, which no report changes.
  Counted : ℕ → ℕ → Spooler P → Type 0
  Counted n m s = (s.job_count ≡ n) × IsAnnounced s

  match_job-Counted :
      (pid : ℤ) (st : WaitStatus) (n i : ℕ) (s : Spooler P)
      → i < n
      → Counted n i s
      → Counted n (suc i) (match_job pid st i s)
  unfolding match_job Counted
  match_job-Counted pid st n i s below (count, a) = (
    (match_job-others pid st i s).0 ∙ count,
    if_elim IsAnnounced (int_eq (s.job_spool i).pgid pid) _ s
        (update_job-IsAnnounced st i s (omega arith) a) a,
  )

  child_report-IsAnnounced :
      (pid : ℤ) (st : WaitStatus) (s : Spooler P)
      → IsAnnounced s
      → IsAnnounced (child_report pid st s)
  unfolding child_report Counted
  child_report-IsAnnounced pid st s a =
      (for_range-within (Counted s.job_count) (match_job pid st) s.job_count
        (match_job-Counted pid st s.job_count) s.job_count 0 s (omega arith) (refl, a)).1

  child_reports-IsAnnounced :
      (reports : List (ℤ × WaitStatus)) (s : Spooler P)
      → IsAnnounced s
      → IsAnnounced (child_reports reports s)
  unfolding child_reports
  child_reports-IsAnnounced [] s a = a
  child_reports-IsAnnounced ((pid, st) ∷ rest) s a =
      child_reports-IsAnnounced rest (child_report pid st s) (child_report-IsAnnounced pid st s a)

  pub flag-IsAnnounced :
      (b : Bool) (s : Spooler P)
      → IsAnnounced s
      → IsAnnounced (record s { child_signal_received = b })
  flag-IsAnnounced b s a =
      Silent-IsAnnounced s (record s { child_signal_received = b })
        (record { same_printers = refl; same_registry = refl; view = λ name. refl }) a.targets a

  pub updates-IsAnnounced :
      (reports : List (ℤ × WaitStatus)) (s : Spooler P)
      → IsAnnounced s
      → IsAnnounced (handle_child_status_updates reports s)
  unfolding handle_child_status_updates
  updates-IsAnnounced reports s a =
      if_elim IsAnnounced s.child_signal_received _ s
        (try_scheduling_jobs-IsAnnounced _
          (child_reports-IsAnnounced reports _ (flag-IsAnnounced false s a)))
        a
