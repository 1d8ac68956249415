-- ===== src/Owned/Session.antt =====
-- Whole sessions: the program signals its own pipelines only.
use posix_printer_spooler.Prelude.{ℤ, refl, Option, List, arith, if_elim, for_range-keeps}
use posix_printer_spooler.Text.{Text}
use posix_printer_spooler.Platform.{Platform, WaitStatus}
use posix_printer_spooler.Spooler.{Spooler, start}
use posix_printer_spooler.Printers.{printer_manager_initialize, printer_manager_cleanup}
use posix_printer_spooler.Jobs.{job_manager_initialize}
use posix_printer_spooler.Children.{sigchld_handler}
use posix_printer_spooler.Cli.{Input, initialize, run_main}
use posix_printer_spooler.Cli.Runs.{
  AnyLine, lines_in, at_prompt, TameInputs, IsKept, any_lines, run_main-keeps,
}
use posix_printer_spooler.Owned.{IsOwn, AreOwn, emit-Own}
use posix_printer_spooler.Owned.Children.{ArePids, delete_expired-IsOwn, updates-IsOwn}
use posix_printer_spooler.Owned.Commands.{handle_user_command-IsOwn}

module _ {P : Platform} where
  -- What `waitpid` reports is about children.
  abbrev pub ChildrenOnly : List (ℤ × WaitStatus) → Spooler P → Type 0
  ChildrenOnly reports s = ArePids reports

  initialize-IsOwn : (s : Spooler P) → IsOwn s → IsOwn (initialize s)
  unfolding initialize printer_manager_initialize printer_manager_cleanup job_manager_initialize
  initialize-IsOwn s own = if_elim IsOwn s.initialized _ _ own (record {
    grouped = λ i h. absurd (omega arith);
    signals =
        (for_range-keeps IsOwn _ (λ i r o. o) s.number_of_registered_printers 0 s own).signals;
  })

  IsOwn-IsKept : IsKept {P = P} AnyLine ChildrenOnly IsOwn
  unfolding sigchld_handler
  IsOwn-IsKept = record {
    initialized = initialize-IsOwn;
    signalled = λ s own. own;
    quitting = λ s own. emit-Own _ refl own;
    refused = λ l message s own. emit-Own _ refl (emit-Own _ refl own);
    command = λ cmd args s _ own. handle_user_command-IsOwn cmd args s own;
    expiring = delete_expired-IsOwn;
    reported = λ reports s children own. updates-IsOwn reports s children own;
  }

module _ (P : Platform) where
  -- In a run of `main` on any file, or none, and then on the user's inputs, where `waitpid` reports
  -- positive process ids, each `killpg` is sent to a process id that `fork` returned for a pipeline
  -- earlier in the run.
  pub run_main-AreOwn :
      (file : Option Text) (inputs : List Input) (t : P.Table) (w : P.World)
      → TameInputs AnyLine ChildrenOnly inputs (at_prompt file (start {P = P} t w))
      → AreOwn (run_main file inputs (start {P = P} t w)).trace
  run_main-AreOwn file inputs t w children =
      (run_main-keeps AnyLine ChildrenOnly IsOwn IsOwn-IsKept file inputs t w
        (record { grouped = λ i h. absurd (omega arith); signals = tt })
        (any_lines ChildrenOnly (lines_in file) _) children).signals
