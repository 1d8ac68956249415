-- ===== src/Registered/Session.antt =====
-- Whole runs: what holds of each printer that `printer` registers holds of all.
use posix_printer_spooler.Prelude.{Option, List, [], ◌∷◌, arith, if_elim}
use posix_printer_spooler.Text.{Text}
use posix_printer_spooler.Platform.{Platform, FileType}
use posix_printer_spooler.Spooler.{Spooler, start}
use posix_printer_spooler.Children.{sigchld_handler, handle_child_status_updates}
use posix_printer_spooler.Tokens.Layout.{AllWords, split-AllWords}
use posix_printer_spooler.Cli.{
  Input, sigchld, before_blocking, line, process_line, initialize, run_main,
}
use posix_printer_spooler.Cli.Runs.{
  lines_in, at_prompt, AnyReports, TameLines, TameInputs, IsKept, run_main-keeps,
}
use posix_printer_spooler.Registered.{
  AreRegistered, delete_expired-AreRegistered, updates-AreRegistered,
}
use posix_printer_spooler.Registered.Commands.{Enrols, handle_user_command-AreRegistered}

module _ {P : Platform} where
  -- The tokens are words.
  abbrev Worded : List Text → Spooler P → Type 0
  Worded tokens s = AllWords tokens

  all_lines : (ls : List Text) (s : Spooler P) → TameLines Worded AnyReports ls s
  all_lines [] s = tt
  all_lines (l ∷ ls) s = (split-AllWords l, all_lines ls (process_line l s).1)

  all_inputs : (inputs : List Input) (s : Spooler P) → TameInputs Worded AnyReports inputs s
  all_inputs [] s = tt
  all_inputs (sigchld ∷ inputs) s = all_inputs inputs (sigchld_handler s)
  all_inputs (before_blocking reports ∷ inputs) s =
      (tt, all_inputs inputs (handle_child_status_updates reports s))
  all_inputs (line l ∷ inputs) s = (split-AllWords l, all_inputs inputs (process_line l s).1)

module _ (P : Platform) (R : Option Text → Option FileType → Type 0) (enrols : Enrols P R) where
  initialize-AreRegistered : (s : Spooler P) → AreRegistered R s → AreRegistered R (initialize s)
  unfolding initialize
  initialize-AreRegistered s all =
      if_elim (AreRegistered R) s.initialized _ _ all (λ k h. absurd (omega arith))

  AreRegistered-IsKept : IsKept {P = P} Worded AnyReports (AreRegistered R)
  unfolding sigchld_handler
  AreRegistered-IsKept = record {
    initialized = initialize-AreRegistered;
    signalled = λ s all. all;
    quitting = λ s all. all;
    refused = λ l message s all. all;
    command =
        λ cmd args s words all. handle_user_command-AreRegistered R enrols cmd args s words all;
    expiring = delete_expired-AreRegistered R;
    reported = λ reports s _ all. updates-AreRegistered R reports s all;
  }

  pub run_main-AreRegistered :
      (file : Option Text) (inputs : List Input) (t : P.Table) (w : P.World)
      → AreRegistered R (run_main file inputs (start {P = P} t w))
  run_main-AreRegistered file inputs t w =
      run_main-keeps Worded AnyReports (AreRegistered R) AreRegistered-IsKept file inputs t w
        (λ k h. absurd (omega arith)) (all_lines (lines_in file) (initialize (start t w)))
        (all_inputs inputs (at_prompt file (start t w)))
