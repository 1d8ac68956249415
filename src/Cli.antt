-- ===== src/Cli.antt =====
-- src/cli.c: run_cli, and the calls of it in src/main.c.
pub mod Batch
pub mod Runs
pub mod Quiet
pub mod Answers
pub mod Session
pub mod Lines
pub mod Ids
use posix_printer_spooler.Prelude.{
  ℕ, zero, suc, ◌-◌, ℤ, success, failure, Bool, true, false, ◌&&◌, ◌||◌, not, Option, none, some,
  List, [], ◌∷◌, ◌==◌, int_eq, if◌then◌else◌,
}
use posix_printer_spooler.Text.{Text, text, text_eq}
use posix_printer_spooler.Platform.{Platform, WaitStatus}
use posix_printer_spooler.Spooler.{
  Spooler, wrong_number_of_args, unrecognized_command, cmd_ok, cmd_error, printed, ◌▷◌, emit,
}
use posix_printer_spooler.Printers.{printer_manager_initialize}
use posix_printer_spooler.Jobs.{job_manager_initialize}
use posix_printer_spooler.Expiry.{delete_expired_jobs_if_needed}
use posix_printer_spooler.Children.{sigchld_handler, handle_child_status_updates}
use posix_printer_spooler.Tokens.{is_space, length, split_input_line_into_tokens}
use posix_printer_spooler.Commands.{handle_user_command}

-- `fgets(buffer, 1 + room, in)`: the bytes read, the newline included, and the rest of the file.
unfoldable pub read_line : ℕ → Text → Text × Text
read_line zero file = ([], file)
read_line (suc room) [] = ([], [])
read_line (suc room) (c ∷ file) =
    let (line, rest) = read_line room file in
    if c == b'\n' then (c ∷ [], file) else (c ∷ line, rest)

-- `buffer[strcspn(buffer, "\n")] = '\0';`, and the copy that `strdup` makes: up to the first newline or
-- NUL.
unfoldable pub cut_newline : Text → Text
cut_newline [] = []
cut_newline (c ∷ line) =
    let rest = cut_newline line in if c == b'\n' || c == 0 then [] else c ∷ rest

abbrev pub all_whitespace : Text → Bool
all_whitespace [] = true
all_whitespace (c ∷ line) = is_space c && all_whitespace line

abbrev pub starts_with_space : Text → Bool
starts_with_space [] = false
starts_with_space (c ∷ line) = is_space c

-- What reaches the interactive loop: SIGCHLD, the hook that `sf_readline` calls before it blocks
-- (with what `waitpid` reports then), and a line that the user enters.
pub data Input : Type 0 where
  sigchld : Input
  before_blocking : List (ℤ × WaitStatus) → Input
  line : Text → Input

module _ {P : Platform} where
  unfoldable pub initialize : Spooler P → Spooler P
  unfolding printer_manager_initialize job_manager_initialize
  initialize s =
      if s.initialized
      then s
      else record (s ▷ printer_manager_initialize ▷ job_manager_initialize) { initialized = true }

  -- The tokens of a line: whether the loop returns, and the state.
  unfoldable pub dispatch_tokens : List Text → Spooler P → Bool × Spooler P
  dispatch_tokens [] s = (
    false,
    s ▷ emit (printed (unrecognized_command [])) ▷ emit (cmd_error "Unrecognized command."),
  )
  dispatch_tokens (cmd ∷ args) s =
      if text_eq cmd (text "quit")
      then if not (length (cmd ∷ args) == 1)
        then (
          false,
          s
              ▷ emit (printed (wrong_number_of_args (length (cmd ∷ args) - 1) 0 "quit"))
              ▷ emit (cmd_error "Invalid number of arguments for 'quit'")
              ▷ delete_expired_jobs_if_needed,
        )
        else (true, emit cmd_ok s)
      else (false, s ▷ handle_user_command (cmd ∷ args) ▷ delete_expired_jobs_if_needed)

  -- The body of the loop behind the reading of the line.
  unfoldable pub process_line : Text → Spooler P → Bool × Spooler P
  unfolding dispatch_tokens
  process_line input_line s =
      if all_whitespace input_line || starts_with_space input_line
      then (false, s)
      else dispatch_tokens (split_input_line_into_tokens input_line) s

  -- The loop in batch mode, on the bytes of the file. Each round reads a byte at least, so a fuel
  -- above the length of the file is enough.
  unfoldable pub batch_loop : ℕ → Text → Spooler P → ℤ × Spooler P
  batch_loop zero file s = (success, s)
  batch_loop (suc fuel) [] s = (success, s)
  batch_loop (suc fuel) (c ∷ file) s =
      let (buffer, rest) = read_line 1023 (c ∷ file) in
      let (quit, s₁) = process_line (cut_newline buffer) s in
      let next = batch_loop fuel rest s₁ in if quit then (failure, s₁) else next

  -- The loop in interactive mode; at the end of the list `sf_readline` returns NULL.
  unfoldable pub interactive_loop : List Input → Spooler P → ℤ × Spooler P
  unfolding process_line sigchld_handler
  interactive_loop [] s = (failure, s)
  interactive_loop (sigchld ∷ inputs) s = interactive_loop inputs (sigchld_handler s)
  interactive_loop (before_blocking reports ∷ inputs) s =
      interactive_loop inputs (handle_child_status_updates reports s)
  interactive_loop (line input_line ∷ inputs) s =
      let (quit, s₁) = process_line input_line s in
      let next = interactive_loop inputs s₁ in if quit then (failure, s₁) else next

  unfoldable pub run_cli_batch : Text → Spooler P → ℤ × Spooler P
  unfolding initialize batch_loop
  run_cli_batch file s = batch_loop (suc (length file)) file (initialize s)

  unfoldable pub run_cli_interactive : List Input → Spooler P → ℤ × Spooler P
  unfolding initialize interactive_loop
  run_cli_interactive inputs s = interactive_loop inputs (initialize s)

  -- `main` behind the options: the file of `-i`, if it is given, then the user, unless the file quit.
  unfoldable pub run_main : Option Text → List Input → Spooler P → Spooler P
  unfolding run_cli_batch run_cli_interactive
  run_main none inputs s = (run_cli_interactive inputs s).1
  run_main (some file) inputs s =
      let (quit, s₁) = run_cli_batch file s in
      if not (int_eq quit success) then s₁ else (run_cli_interactive inputs s₁).1
