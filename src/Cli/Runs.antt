-- ===== src/Cli/Runs.antt =====
-- The rule for invariants of whole runs: what start, the commands, the deletion of expired jobs and
-- the reports on children keep, run_cli and `main` keep.
use posix_printer_spooler.Prelude.{
  ℤ, success, Bool, ◌||◌, String, not, List, [], ◌∷◌, Option, none, some, if_elim, ◌==◌, int_eq,
}
use posix_printer_spooler.Text.{Text, text, text_eq}
use posix_printer_spooler.Platform.{Platform, WaitStatus}
use posix_printer_spooler.Spooler.{Spooler, Line, emit, cmd_ok, cmd_error, printed, start}
use posix_printer_spooler.Expiry.{delete_expired_jobs_if_needed}
use posix_printer_spooler.Children.{sigchld_handler, handle_child_status_updates}
use posix_printer_spooler.Tokens.{split_input_line_into_tokens, length}
use posix_printer_spooler.Commands.{handle_user_command}
use posix_printer_spooler.Cli.{
  Input, sigchld, before_blocking, line, dispatch_tokens, process_line, interactive_loop,
  all_whitespace, starts_with_space, initialize, run_cli_interactive, run_main,
}
use posix_printer_spooler.Cli.Batch.{file_lines, run_lines, run_cli_batch-file_lines}

-- The lines of the file that `-i` names.
abbrev pub lines_in : Option Text → List Text
lines_in none = []
lines_in (some file) = file_lines file

module _ {P : Platform} where
  -- The state in which the user's first input is read, unless the file quits.
  abbrev pub at_prompt : Option Text → Spooler P → Spooler P
  at_prompt none s = initialize s
  at_prompt (some file) s = initialize (run_lines (file_lines file) (initialize s)).1

  -- No condition on the lines, and none on the reports.
  abbrev pub AnyLine : List Text → Spooler P → Type 0
  AnyLine tokens s = Unit

  abbrev pub AnyReports : List (ℤ × WaitStatus) → Spooler P → Type 0
  AnyReports reports s = Unit

module _ {P : Platform} (Tame : List Text → Spooler P → Type 0)
    (True : List (ℤ × WaitStatus) → Spooler P → Type 0) where
  -- Each line is tame when it is read.
  abbrev pub TameLines : List Text → Spooler P → Type 0
  TameLines [] s = Unit
  TameLines (l ∷ ls) s = Tame (split_input_line_into_tokens l) s × TameLines ls (process_line l s).1

  -- The same for what the user enters, and the reports are true when they are read.
  abbrev pub TameInputs : List Input → Spooler P → Type 0
  TameInputs [] s = Unit
  TameInputs (sigchld ∷ inputs) s = TameInputs inputs (sigchld_handler s)
  TameInputs (before_blocking reports ∷ inputs) s =
      True reports s × TameInputs inputs (handle_child_status_updates reports s)
  TameInputs (line l ∷ inputs) s =
      Tame (split_input_line_into_tokens l) s × TameInputs inputs (process_line l s).1

  -- The parts of the program keep `Q`.
  pub record IsKept (Q : Spooler P → Type 0) : Type 0 where
    pub initialized : (s : Spooler P) → Q s → Q (initialize s)
    pub signalled : (s : Spooler P) → Q s → Q (sigchld_handler s)
    pub quitting : (s : Spooler P) → Q s → Q (emit cmd_ok s)
    pub refused :
        (l : Line) (message : String) (s : Spooler P)
        → Q s
        → Q (emit (cmd_error message) (emit (printed l) s))
    pub command :
        (cmd : Text) (args : List Text) (s : Spooler P)
        → Tame (cmd ∷ args) s
        → Q s
        → Q (handle_user_command (cmd ∷ args) s)
    pub expiring : (s : Spooler P) → Q s → Q (delete_expired_jobs_if_needed s)
    pub reported :
        (reports : List (ℤ × WaitStatus)) (s : Spooler P)
        → True reports s
        → Q s
        → Q (handle_child_status_updates reports s)

  module _ (Q : Spooler P → Type 0) (kept : IsKept Q) where
    dispatch-keeps :
        (tokens : List Text) (s : Spooler P) → Tame tokens s → Q s → Q (dispatch_tokens tokens s).1
    unfolding dispatch_tokens
    dispatch-keeps [] s tame q = kept.refused _ _ s q
    dispatch-keeps (cmd ∷ args) s tame q =
        if_elim (λ (r : Bool × Spooler P). Q r.1) (text_eq cmd (text "quit")) _ _
          (if_elim (λ (r : Bool × Spooler P). Q r.1) (not (length (cmd ∷ args) == 1)) _ _
            (kept.expiring _ (kept.refused _ _ s q)) (kept.quitting s q))
          (kept.expiring _ (kept.command cmd args s tame q))

    pub process_line-keeps :
        (input_line : Text) (s : Spooler P)
        → Tame (split_input_line_into_tokens input_line) s
        → Q s
        → Q (process_line input_line s).1
    unfolding process_line
    process_line-keeps input_line s tame q =
        if_elim (λ (r : Bool × Spooler P). Q r.1)
          (all_whitespace input_line || starts_with_space input_line) _ _ q
          (dispatch-keeps (split_input_line_into_tokens input_line) s tame q)

    run_lines-keeps : (ls : List Text) (s : Spooler P) → TameLines ls s → Q s → Q (run_lines ls s).1
    unfolding run_lines
    run_lines-keeps [] s h q = q
    run_lines-keeps (l ∷ ls) s (tame, h) q =
        let next = process_line-keeps l s tame q in
        if_elim (λ (r : ℤ × Spooler P). Q r.1) (process_line l s).0 _ _ next
          (run_lines-keeps ls (process_line l s).1 h next)

    interactive_loop-keeps :
        (inputs : List Input) (s : Spooler P)
        → TameInputs inputs s
        → Q s
        → Q (interactive_loop inputs s).1
    unfolding interactive_loop
    interactive_loop-keeps [] s h q = q
    interactive_loop-keeps (sigchld ∷ inputs) s h q =
        interactive_loop-keeps inputs (sigchld_handler s) h (kept.signalled s q)
    interactive_loop-keeps (before_blocking reports ∷ inputs) s (true_now, h) q =
        interactive_loop-keeps inputs (handle_child_status_updates reports s) h
          (kept.reported reports s true_now q)
    interactive_loop-keeps (line l ∷ inputs) s (tame, h) q =
        let next = process_line-keeps l s tame q in
        if_elim (λ (r : ℤ × Spooler P). Q r.1) (process_line l s).0 _ _ next
          (interactive_loop-keeps inputs (process_line l s).1 h next)

    -- A whole run, from the first initialization, on the lines of the file, if there is one, and then
    -- on the user's inputs.
    pub run_main-keeps_on :
        (file : Option Text) (inputs : List Input) (t : P.Table) (w : P.World)
        → Q (initialize (start {P = P} t w))
        → TameLines (lines_in file) (initialize (start {P = P} t w))
        → TameInputs inputs (at_prompt file (start {P = P} t w))
        → Q (run_main file inputs (start {P = P} t w))
    unfolding run_main run_cli_interactive
    run_main-keeps_on none inputs t w at_start tame later =
        interactive_loop-keeps inputs (initialize (start t w)) later at_start
    run_main-keeps_on (some file) inputs t w at_start tame later =
        let ls = file_lines file in
        let s : Spooler P = initialize (start {P = P} t w) in
        let after_file = run_lines-keeps ls s tame at_start in
        rw (run_cli_batch-file_lines file (start {P = P} t w)) (
          if_elim Q (not (int_eq (run_lines ls s).0 success)) _ _ after_file (
            interactive_loop-keeps inputs (initialize (run_lines ls s).1) later
              (kept.initialized (run_lines ls s).1 after_file)))

    -- The same from the start.
    pub run_main-keeps :
        (file : Option Text) (inputs : List Input) (t : P.Table) (w : P.World)
        → Q (start {P = P} t w)
        → TameLines (lines_in file) (initialize (start {P = P} t w))
        → TameInputs inputs (at_prompt file (start {P = P} t w))
        → Q (run_main file inputs (start {P = P} t w))
    run_main-keeps file inputs t w at_start =
        run_main-keeps_on file inputs t w (kept.initialized _ at_start)

module _ {P : Platform} where
  pub any_lines :
      (True : List (ℤ × WaitStatus) → Spooler P → Type 0) (ls : List Text) (s : Spooler P)
      → TameLines AnyLine True ls s
  any_lines True [] s = tt
  any_lines True (l ∷ ls) s = (tt, any_lines True ls (process_line l s).1)
