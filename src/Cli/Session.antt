-- ===== src/Cli/Session.antt =====
-- Whole sessions: run_cli on a file and on the inputs of the user keeps the invariant.
use posix_printer_spooler.Prelude.{
  ℕ, ◌≡◌, refl, ℤ, true, false, List, [], ◌∷◌, Option, some, some, if_elim, arith,
}
use posix_printer_spooler.Text.{Text, text, text_eq}
use posix_printer_spooler.Platform.{Platform, WaitStatus}
use posix_printer_spooler.Spooler.{Spooler, start}
use posix_printer_spooler.Printers.{get_printer_by_name}
use posix_printer_spooler.Jobs.Consistency.{Holds, IsConsistent, same-IsConsistent}
use posix_printer_spooler.Expiry.Consistency.{delete_expired-IsConsistent}
use posix_printer_spooler.Children.{sigchld_handler}
use posix_printer_spooler.Children.Consistency.{Accurate, updates-IsConsistent}
use posix_printer_spooler.Commands.{arg}
use posix_printer_spooler.Commands.Consistency.{handle_user_command-IsConsistent}
use posix_printer_spooler.Cli.{Input, initialize, run_main}
use posix_printer_spooler.Cli.Runs.{
  lines_in, at_prompt, TameLines, TameInputs, IsKept, run_main-keeps,
}

module _ {P : Platform} where
  -- If the tokens are an `enable` of a known printer, no active job holds it.
  abbrev pub Harmless : List Text → Spooler P → Type 0
  Harmless [] s = Unit
  Harmless (cmd ∷ args) s =
      text_eq cmd (text "enable") ≡ true
      → (p i : ℕ) → get_printer_by_name (arg (cmd ∷ args) 1) s ≡ some p
      → ¬ Holds s i p

  -- Each report is about active jobs when it is read.
  abbrev pub AccurateNow : List (ℤ × WaitStatus) → Spooler P → Type 0
  AccurateNow reports s = Accurate reports (record s { child_signal_received = false })

  -- Each `enable` of the lines, and of what the user enters, is of a printer that no active job holds
  -- then; and the reports are about active jobs.
  abbrev pub CarefulLines : List Text → Spooler P → Type 0
  CarefulLines = TameLines Harmless AccurateNow

  abbrev pub Careful : List Input → Spooler P → Type 0
  Careful = TameInputs Harmless AccurateNow

  -- Either nothing, or the emptying of both tables.
  initialize-IsConsistent : (s : Spooler P) → IsConsistent s → IsConsistent (initialize s)
  unfolding initialize
  initialize-IsConsistent s c = if_elim IsConsistent s.initialized _ _ c (record {
    bounded = omega arith;
    placed = λ i h. absurd (omega arith);
    held = λ i p h. absurd (omega (arith, h.0));
    exclusive = λ i j p g h. absurd (omega (arith, h.0));
  })

  start-IsConsistent : (t : P.Table) (w : P.World) → IsConsistent (start {P = P} t w)
  start-IsConsistent t w = record {
    bounded = omega arith;
    placed = λ i h. absurd (omega arith);
    held = λ i p h. absurd (omega (arith, h.0));
    exclusive = λ i j p g h. absurd (omega (arith, h.0));
  }

  IsConsistent-IsKept : IsKept Harmless AccurateNow IsConsistent
  unfolding sigchld_handler
  IsConsistent-IsKept = record {
    initialized = initialize-IsConsistent;
    signalled = λ s c. same-IsConsistent s _ refl refl refl refl c;
    quitting = λ s c. same-IsConsistent s _ refl refl refl refl c;
    refused = λ l message s c. same-IsConsistent s _ refl refl refl refl c;
    command = λ cmd args s free c. handle_user_command-IsConsistent cmd args s free c;
    expiring = delete_expired-IsConsistent;
    reported = λ reports s accurate c. updates-IsConsistent reports s accurate c;
  }

  -- A whole run of the program, from its start, on any file of commands, or none, and then on the
  -- user's inputs keeps the invariant of jobs and printers: each active job holds a BUSY printer, of
  -- its own. It is assumed that each `enable` is of a printer that no active job holds then, and that
  -- each report of `waitpid` is about active jobs.
  pub run_main-IsConsistent :
      (file : Option Text) (inputs : List Input) (t : P.Table) (w : P.World)
      → CarefulLines (lines_in file) (initialize (start {P = P} t w))
      → Careful inputs (at_prompt file (start {P = P} t w))
      → IsConsistent (run_main file inputs (start {P = P} t w))
  run_main-IsConsistent file inputs t w careful later =
      run_main-keeps Harmless AccurateNow IsConsistent IsConsistent-IsKept file inputs t w
        (start-IsConsistent t w) careful later
