-- ===== src/Races.antt =====
-- src/cli.c: the SIGCHLD handler against handle_child_status_updates, in small steps. A child can change
-- its status between any two steps. What `waitpid` would report then is the list `pending`, with one
-- report for a child at most, its latest. The handler runs at once, but for the hook: `sf_readline`
-- calls handle_child_status_updates with signals masked (include/sf_readline.h), so there SIGCHLD is
-- held back until the call returns. The handler writes the flag alone, so a signal in the middle of
-- a command is one before or after it, and one between the masking and the test of the flag is one
-- before or after the call.
pub mod Flag
pub mod Commands
pub mod Settling
use posix_printer_spooler.Prelude.{
  ℤ, ◌≡◌, ◌≢◌, Bool, true, false, List, [], ◌∷◌, int_eq, if◌then◌else◌,
}
use posix_printer_spooler.Text.{Text}
use posix_printer_spooler.Platform.{Platform, WaitStatus}
use posix_printer_spooler.Spooler.{Spooler}
use posix_printer_spooler.Jobs.{try_scheduling_jobs}
use posix_printer_spooler.Children.{sigchld_handler, child_report}
use posix_printer_spooler.Cli.{process_line}

-- Where the program is: not in handle_child_status_updates, in its loop over `waitpid`, or behind it.
pub data Phase : Type 0 where
  outside : Phase
  draining : Phase
  scheduling : Phase

-- The phase, whether a SIGCHLD is held back, what `waitpid` would report, and the program's state.
pub data System (P : Platform) : Type 0 where
  system : Phase → Bool → List (ℤ × WaitStatus) → Spooler P → System P

-- What there is to report of one child.
abbrev pub reports_of : ℤ → List (ℤ × WaitStatus) → List WaitStatus
reports_of child [] = []
reports_of child ((pid, status) ∷ pending) =
    let rest = reports_of child pending in if int_eq pid child then status ∷ rest else rest

-- A child changes its status, so that `waitpid` has this to report of it, in place of what it had, and
-- of every other child what it had before.
pub record Changes (pid : ℤ) (status : WaitStatus) (pending pending' : List (ℤ × WaitStatus))
    : Type 0 where
  pub latest : reports_of pid pending' ≡ status ∷ []
  pub others : (child : ℤ) → child ≢ pid → reports_of child pending' ≡ reports_of child pending

module _ {P : Platform} where
  -- Signals are unmasked.
  abbrev pub deliver : Bool → Spooler P → Spooler P
  deliver held s = if held then sigchld_handler s else s

  -- The steps of handle_child_status_updates.
  pub data CallStep : System P → System P → Type 0 where
    -- `if (!child_signal_received) return; child_signal_received = 0;`
    enters :
        (pending : List (ℤ × WaitStatus)) (s : Spooler P)
        → s.child_signal_received ≡ true
        → CallStep
            (system outside false pending s)
            (system draining false pending (record s { child_signal_received = false }))
    -- `waitpid` reports on a child.
    reaps :
        (pid : ℤ) (status : WaitStatus) (held : Bool) (pending : List (ℤ × WaitStatus))
        (s : Spooler P)
        → CallStep
            (system draining held ((pid, status) ∷ pending) s)
            (system draining held pending (child_report pid status s))
    -- `waitpid` has nothing to report.
    drains :
        (held : Bool) (s : Spooler P)
        → CallStep (system draining held [] s) (system scheduling held [] s)
    -- The rest of the call, and its return.
    leaves :
        (held : Bool) (pending : List (ℤ × WaitStatus)) (s : Spooler P)
        → CallStep
            (system scheduling held pending s)
            (system outside false pending (deliver held (try_scheduling_jobs s)))

  -- A call with nothing in between: no child changes its status, and no line is read.
  pub data CallSteps (x : System P) : System P → Type 0 where
    done : CallSteps x x
    goes_on : {y z : System P} → CallSteps x y → CallStep y z → CallSteps x z

  pub data Step : System P → System P → Type 0 where
    -- A child changes its status, and SIGCHLD is caught.
    changes :
        (pid : ℤ) (status : WaitStatus) (pending pending' : List (ℤ × WaitStatus)) (s : Spooler P)
        → Changes pid status pending pending'
        → Step (system outside false pending s) (system outside false pending' (sigchld_handler s))
    -- A child changes its status during the call, and SIGCHLD is held back.
    changes_masked :
        (phase : Phase) (pid : ℤ) (status : WaitStatus) (held : Bool)
        (pending pending' : List (ℤ × WaitStatus)) (s : Spooler P)
        → phase ≢ outside
        → Changes pid status pending pending'
        → Step (system phase held pending s) (system phase true pending' s)
    -- A line of input is read and executed.
    executes :
        (input_line : Text) (pending : List (ℤ × WaitStatus)) (s : Spooler P)
        → Step
            (system outside false pending s)
            (system outside false pending (process_line input_line s).1)
    -- handle_child_status_updates makes a step.
    handles : {x y : System P} → CallStep x y → Step x y

  pub data Steps (x : System P) : System P → Type 0 where
    here : Steps x x
    next : {y z : System P} → Steps x y → Step y z → Steps x z
