-- ===== src/Tests/Racing.antt =====
-- A child that stops, and continues after the loop over `waitpid` has ended.
use posix_printer_spooler.Prelude.{refl, arith, int_eq_iff, true, false, ℤ, pos, List, [], ◌∷◌}
use posix_printer_spooler.Platform.{WaitStatus, stopped, continued}
use posix_printer_spooler.Spooler.{Spooler}
use posix_printer_spooler.Jobs.{try_scheduling_jobs}
use posix_printer_spooler.Children.{sigchld_handler, child_report, handle_child_status_updates}
use posix_printer_spooler.Races.{
  outside, scheduling, system, Steps, CallSteps, Changes, here, next, handles, changes,
  changes_masked, enters, reaps, drains, leaves,
}
use posix_printer_spooler.Races.Settling.{reports_settle}
use posix_printer_spooler.Toy.{toy}
use posix_printer_spooler.Tests.States.{printing}

abbrev stop : List (ℤ × WaitStatus)
stop = (pos 1200, stopped) ∷ []

abbrev resumption : List (ℤ × WaitStatus)
resumption = (pos 1200, continued) ∷ []

-- The handler has run.
abbrev caught : Spooler toy
caught = sigchld_handler printing

abbrev reaped : Spooler toy
reaped = child_report (pos 1200) stopped (record caught { child_signal_received = false })

-- The child continues before the scheduler runs, and SIGCHLD is caught when the call returns.
abbrev late : Spooler toy
late = sigchld_handler (try_scheduling_jobs reaped)

-- The first report, and the only one.
alone : (status : WaitStatus) → Changes (pos 1200) status [] ((pos 1200, status) ∷ [])
alone status = record {
  latest = refl;
  others = λ child ne. ground (arith, int_eq_iff (pos 1200) child, ne);
}

stops_and_continues :
    Steps (system outside false [] printing) (system outside false resumption late)
unfolding sigchld_handler
stops_and_continues =
    next
      (next
        (next
          (next
            (next (next here (changes (pos 1200) stopped [] stop printing (alone stopped)))
              (handles (enters stop caught refl)))
            (handles (reaps (pos 1200) stopped false [] _)))
          (handles (drains false reaped)))
        (changes_masked scheduling (pos 1200) continued false [] resumption reaped (λ e. cc)
          (alone continued)))
      (handles (leaves true resumption reaped))

reports_settle_example :
    CallSteps
      (system outside false resumption late)
      (system outside false [] (handle_child_status_updates resumption late))
reports_settle_example = reports_settle printing late resumption stops_and_continues
