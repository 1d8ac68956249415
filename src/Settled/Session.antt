-- ===== src/Settled/Session.antt =====
-- Whole sessions: no job is left waiting beside a suitable printer.
use posix_printer_spooler.Prelude.{◌≡◌, refl, ℤ, is_negative, false, Option, List, arith, if_elim}
use posix_printer_spooler.Text.{Text}
use posix_printer_spooler.Platform.{Platform, WaitStatus}
use posix_printer_spooler.Spooler.{Spooler, start}
use posix_printer_spooler.Jobs.Progress.{try_scheduling_jobs-IsSettled}
use posix_printer_spooler.Children.{sigchld_handler, handle_child_status_updates}
use posix_printer_spooler.Cli.{Input, initialize, run_main}
use posix_printer_spooler.Cli.Runs.{
  lines_in, at_prompt, AnyReports, TameLines, TameInputs, IsKept, run_main-keeps,
}
use posix_printer_spooler.Settled.{AreSettled, same-AreSettled, delete_expired-AreSettled}
use posix_printer_spooler.Settled.Commands.{Timely, emit-AreSettled, handle_user_command-AreSettled}

module _ {P : Platform} where
  initialize-AreSettled : (s : Spooler P) → AreSettled s → AreSettled (initialize s)
  unfolding initialize
  initialize-AreSettled s settled =
      if_elim AreSettled s.initialized _ _ settled (λ i h. absurd (omega arith))

  module _ (forks : (w : P.World) → is_negative (P.fork w).0 ≡ false) where
    updates-AreSettled :
        (reports : List (ℤ × WaitStatus)) (s : Spooler P)
        → AreSettled s
        → AreSettled (handle_child_status_updates reports s)
    unfolding handle_child_status_updates
    updates-AreSettled reports s settled =
        if_elim AreSettled s.child_signal_received _ _ (try_scheduling_jobs-IsSettled forks _)
          settled

    AreSettled-IsKept : IsKept {P = P} Timely AnyReports AreSettled
    unfolding sigchld_handler
    AreSettled-IsKept = record {
      initialized = initialize-AreSettled;
      signalled = λ s settled.
          same-AreSettled s (sigchld_handler s)
            (record { same_table = refl; same_printers = refl; same_registry = refl }) refl refl
            settled;
      quitting = λ s settled. emit-AreSettled _ s settled;
      refused = λ l message s settled. emit-AreSettled _ _ (emit-AreSettled _ s settled);
      command = λ cmd args s timely settled.
          handle_user_command-AreSettled forks cmd args s timely settled;
      expiring = delete_expired-AreSettled;
      reported = λ reports s _ settled. updates-AreSettled reports s settled;
    }

    -- While forks succeed, after a run of `main` on any file, or none, and then on the user's inputs,
    -- there is no CREATED job whose type is known together with an IDLE printer of
    -- that type or at the end of a conversion path from it. It is assumed that each `type`, `conversion`
    -- and `cancel` comes when no job is CREATED; the reports of `waitpid` are any.
    pub run_main-AreSettled :
        (file : Option Text) (inputs : List Input) (t : P.Table) (w : P.World)
        → TameLines Timely AnyReports (lines_in file) (initialize (start {P = P} t w))
        → TameInputs Timely AnyReports inputs (at_prompt file (start {P = P} t w))
        → AreSettled (run_main file inputs (start {P = P} t w))
    run_main-AreSettled file inputs t w timely later =
        run_main-keeps Timely AnyReports AreSettled AreSettled-IsKept file inputs t w
          (λ i h. absurd (omega arith)) timely later
