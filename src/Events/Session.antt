-- ===== src/Events/Session.antt =====
-- Whole runs against the events about printers.
use posix_printer_spooler.Prelude.{true, refl, List, [], ◌∷◌, Option, arith, if_elim}
use posix_printer_spooler.Text.{Text}
use posix_printer_spooler.Platform.{Platform}
use posix_printer_spooler.Spooler.{Spooler, start}
use posix_printer_spooler.Children.{sigchld_handler, handle_child_status_updates}
use posix_printer_spooler.Cli.{
  Input, sigchld, before_blocking, line, process_line, initialize, run_main,
}
use posix_printer_spooler.Cli.Runs.{
  lines_in, AnyLine, any_lines, AnyReports, TameInputs, IsKept, run_main-keeps,
}
use posix_printer_spooler.Events.{announced, IsAnnounced}
use posix_printer_spooler.Events.Children.{flag-IsAnnounced, updates-IsAnnounced}
use posix_printer_spooler.Events.Expiry.{delete_expired-IsAnnounced}
use posix_printer_spooler.Events.Silence.{muted}
use posix_printer_spooler.Events.Commands.{handle_user_command-IsAnnounced}

module _ {P : Platform} where
  any_inputs : (inputs : List Input) (s : Spooler P) → TameInputs AnyLine AnyReports inputs s
  any_inputs [] s = tt
  any_inputs (sigchld ∷ inputs) s = any_inputs inputs (sigchld_handler s)
  any_inputs (before_blocking reports ∷ inputs) s =
      (tt, any_inputs inputs (handle_child_status_updates reports s))
  any_inputs (line l ∷ inputs) s = (tt, any_inputs inputs (process_line l s).1)

  start-IsAnnounced : (t : P.Table) (w : P.World) → IsAnnounced (start {P = P} t w)
  start-IsAnnounced t w = record {
    registry = record { bounded = omega arith; unique = λ i j h. absurd (omega arith) };
    targets = λ k p h. absurd (omega arith);
    shown = λ i h. absurd (omega arith);
  }

  initialize-IsAnnounced : (s : Spooler P) → IsAnnounced s → IsAnnounced (initialize s)
  unfolding initialize
  initialize-IsAnnounced s a = if_elim IsAnnounced s.initialized _ _ a (record {
    registry = record { bounded = omega arith; unique = λ i j h. absurd (omega arith) };
    targets = λ k p h. absurd (omega arith);
    shown = λ i h. absurd (omega arith);
  })

  IsAnnounced-IsKept : IsKept {P = P} AnyLine AnyReports IsAnnounced
  unfolding sigchld_handler announced
  IsAnnounced-IsKept = record {
    initialized = initialize-IsAnnounced;
    signalled = flag-IsAnnounced true;
    quitting = λ s a. muted s _ refl refl refl refl (λ name. refl) a;
    refused = λ l message s a. muted s _ refl refl refl refl (λ name. refl) a;
    command = λ cmd args s _ a. handle_user_command-IsAnnounced cmd args s a;
    expiring = delete_expired-IsAnnounced;
    reported = λ reports s _ a. updates-IsAnnounced reports s a;
  }

  -- In a whole run, from the start, on any file, or none, and any inputs, signals and reports on
  -- children, the events tell the status of every printer: the latest event about a
  -- registered printer's name states the status that the registry holds. Also, at most 32 printers
  -- are registered, no two with one name.
  pub run_main-IsAnnounced :
      (file : Option Text) (inputs : List Input) (t : P.Table) (w : P.World)
      → IsAnnounced (run_main file inputs (start {P = P} t w))
  run_main-IsAnnounced file inputs t w =
      run_main-keeps AnyLine AnyReports IsAnnounced IsAnnounced-IsKept file inputs t w
        (start-IsAnnounced t w) (any_lines AnyReports (lines_in file) _) (any_inputs inputs _)
