-- ===== src/Cli/Answers.antt =====
-- How many outcomes a session reports.
use posix_printer_spooler.Prelude.{
  ℕ, suc, ◌+◌, ◌≡◌, refl, ◌∙◌, inl, inr, success, failure, Bool, true, false, not, ◌&&◌, ◌||◌,
  Option, none, some, List, [], ◌∷◌, ◌++◌, arith, ◌==◌, if◌then◌else◌, Bool-cases, if_elim,
}
use posix_printer_spooler.Text.{Text, text, text_eq}
use posix_printer_spooler.Platform.{Platform}
use posix_printer_spooler.Spooler.{Spooler, start}
use posix_printer_spooler.Children.{sigchld_handler, handle_child_status_updates}
use posix_printer_spooler.Tokens.{is_space, length, split_input_line_into_tokens}
use posix_printer_spooler.Commands.{handle_user_command}
use posix_printer_spooler.Commands.Reports.{reports, ReportsOnce, handle_user_command-ReportsOnce}
use posix_printer_spooler.Cli.{
  Input, sigchld, before_blocking, line, all_whitespace, starts_with_space, dispatch_tokens,
  process_line, initialize, interactive_loop, run_cli_interactive, run_main,
}
use posix_printer_spooler.Cli.Batch.{file_lines, run_lines, run_cli_batch-file_lines}
use posix_printer_spooler.Cli.Runs.{lines_in}
use posix_printer_spooler.Cli.Quiet.{initialize-IsQuiet, delete_expired-IsQuiet, updates-IsQuiet}

-- The lines that the user enters.
abbrev pub lines_of : List Input → List Text
lines_of [] = []
lines_of (line l ∷ inputs) = l ∷ lines_of inputs
lines_of (_ ∷ inputs) = lines_of inputs

-- A line that is empty or begins with white space.
abbrev is_ignored : Text → Bool
is_ignored [] = true
is_ignored (c ∷ l) = is_space c

-- The one token `quit`.
abbrev is_quit : List Text → Bool
is_quit (cmd ∷ []) = text_eq cmd (text "quit")
is_quit _ = false

-- The number of lines that are not ignored, up to the first that quits.
abbrev pub answers : List Text → ℕ
answers [] = 0
answers (l ∷ ls) =
    let rest = answers ls in
    if is_ignored l then rest else if is_quit (split_input_line_into_tokens l) then 1 else suc rest

abbrev quits_at : Text → Bool
quits_at l = not (is_ignored l) && is_quit (split_input_line_into_tokens l)

-- Whether one of the lines quits.
abbrev quits : List Text → Bool
quits [] = false
quits (l ∷ ls) = quits_at l || quits ls

answers-append :
    (ls ls' : List Text)
    → answers (ls ++ ls') ≡ (if quits ls then answers ls else answers ls + answers ls')
answers-append [] ls' = omega arith
answers-append (l ∷ ls) ls' = ground (arith, answers-append ls ls')

ignored_lem : (l : Text) → (all_whitespace l || starts_with_space l) ≡ is_ignored l
ignored_lem [] = refl
ignored_lem (c ∷ l) = ground arith

module _ {P : Platform} where
  abbrev Answered : Bool → Spooler P → Bool × Spooler P → Type 0
  Answered quit s r = (r.0 ≡ quit) × ReportsOnce s r.1

  dispatch-Answered :
      (tokens : List Text) (s : Spooler P) → Answered (is_quit tokens) s (dispatch_tokens tokens s)
  unfolding dispatch_tokens
  dispatch-Answered [] s = (refl, refl)
  dispatch-Answered (cmd ∷ []) s = elim (Bool-cases (text_eq cmd (text "quit"))) [
    | inl quit ↦ rw quit (refl, refl)
    | inr other ↦ rw other (
      refl,
      delete_expired-IsQuiet (handle_user_command (cmd ∷ []) s)
          ∙ handle_user_command-ReportsOnce cmd [] s,
    )
  ]
  dispatch-Answered (cmd ∷ a ∷ args) s =
      let many : (length (cmd ∷ a ∷ args) == 1) ≡ false = ground arith in
      rw many (
        if_elim (Answered false s) (text_eq cmd (text "quit")) _ _ (refl, delete_expired-IsQuiet _)
          (
            refl,
            delete_expired-IsQuiet (handle_user_command (cmd ∷ a ∷ args) s)
                ∙ handle_user_command-ReportsOnce cmd (a ∷ args) s,
          ))

  process_line-answers :
      (l : Text) (s : Spooler P)
      → ((process_line l s).0 ≡ quits_at l)
        × (reports (process_line l s).1.trace ≡ (if is_ignored l then 0 else 1) + reports s.trace)
  unfolding process_line
  process_line-answers l s =
      ground (arith, ignored_lem l, dispatch-Answered (split_input_line_into_tokens l) s)

  run_lines-answers :
      (ls : List Text) (s : Spooler P)
      → ((run_lines ls s).0 ≡ (if quits ls then failure else success))
        × (reports (run_lines ls s).1.trace ≡ answers ls + reports s.trace)
  unfolding run_lines
  run_lines-answers [] s = (refl, omega arith)
  run_lines-answers (l ∷ ls) s =
      ground (arith, process_line-answers l s, run_lines-answers ls (process_line l s).1)

  interactive_loop-answers :
      (inputs : List Input) (s : Spooler P)
      → reports (interactive_loop inputs s).1.trace ≡ answers (lines_of inputs) + reports s.trace
  unfolding interactive_loop sigchld_handler
  interactive_loop-answers [] s = omega arith
  interactive_loop-answers (sigchld ∷ inputs) s =
      interactive_loop-answers inputs (sigchld_handler s)
  interactive_loop-answers (before_blocking news ∷ inputs) s = ground (
    arith,
    interactive_loop-answers inputs (handle_child_status_updates news s),
    updates-IsQuiet news s,
  )
  interactive_loop-answers (line l ∷ inputs) s =
      ground (arith, process_line-answers l s, interactive_loop-answers inputs (process_line l s).1)

module _ (P : Platform) where
  -- A run of `main` on any file, or none, and then on the user's inputs, reports as many outcomes, by
  -- sf_cmd_ok or sf_cmd_error, as there are lines in the file and from the user that are not empty and
  -- do not begin with white space, up to the first line whose one token is `quit`. Children that
  -- change their status add none.
  pub run_main-answers :
      (file : Option Text) (inputs : List Input) (t : P.Table) (w : P.World)
      → reports (run_main file inputs (start {P = P} t w)).trace
        ≡ answers (lines_in file ++ lines_of inputs)
  unfolding run_main run_cli_interactive
  run_main-answers none inputs t w =
      let s : Spooler P = start t w in
      ground (arith, interactive_loop-answers inputs (initialize s), initialize-IsQuiet s)
  run_main-answers (some file) inputs t w =
      let s : Spooler P = start t w in
      let ls = file_lines file in
      let batch = run_lines-answers ls (initialize s) in
      let user = interactive_loop-answers inputs (initialize (run_lines ls (initialize s)).1) in
      rw (run_cli_batch-file_lines file s, answers-append ls (lines_of inputs))
        (ground (
          arith,
          batch,
          user,
          initialize-IsQuiet s,
          initialize-IsQuiet (run_lines ls (initialize s)).1,
        ))
