-- ===== src/Commands/Jobs.antt =====
-- src/command_handler.c: the commands print, jobs, cancel, pause and resume.
use posix_printer_spooler.Prelude.{
  ℕ, ℤ, success, String, not, none, some, List, ◌==◌, int_eq, if◌then◌else◌, for_range,
}
use posix_printer_spooler.Text.{Text}
use posix_printer_spooler.Platform.{Platform}
use posix_printer_spooler.Spooler.{
  Spooler, command_error, requires_job_id, failed_job, cmd_ok, cmd_error, job_status, ◌▷◌, emit,
}
use posix_printer_spooler.Jobs.{get_job_count, submit_print_job}
use posix_printer_spooler.Control.{cancel_job, pause_job, resume_job}
use posix_printer_spooler.Tokens.{length}
use posix_printer_spooler.Numbers.{atoi}
use posix_printer_spooler.Commands.Arguments.{arg, print, wrong_args}

module _ {P : Platform} where
  -- The part of `handle_print_command` behind the submission.
  abbrev pub finish_print : ℤ × Spooler P → Spooler P
  finish_print (r, s) =
      if not (int_eq r success)
      then s
        ▷ print (command_error "print" "failed")
        ▷ emit (cmd_error "submit_print_job() failed.")
      else emit cmd_ok s

  unfoldable pub handle_print_command : List Text → Spooler P → Spooler P
  handle_print_command argv s =
      if not (length argv == 2)
      then wrong_args argv 1 "print" "Invalid number of arguments for 'print'." s
      else elim (P.infer_file_type (arg argv 1) s.table) [
        | none ↦ s ▷ print (command_error "print" "file type") ▷ emit (cmd_error "print")
        | some type ↦ finish_print (submit_print_job (some (arg argv 1)) none s)
      ]

  abbrev pub list_job : ℕ → Spooler P → Spooler P
  list_job i s = emit (job_status (s.job_spool i).id (s.job_spool i).status) s

  unfoldable pub handle_jobs_command : Spooler P → Spooler P
  handle_jobs_command s = s ▷ for_range list_job (get_job_count s) 0 ▷ emit cmd_ok

  abbrev pub finish_job : String → String → ℤ → ℤ × Spooler P → Spooler P
  finish_job name message job_id (r, s) =
      if not (int_eq r success)
      then s ▷ print (failed_job name job_id) ▷ emit (cmd_error message)
      else emit cmd_ok s

  -- What `cancel`, `pause` and `resume` share: the call, the message of its failure.
  abbrev pub on_job :
      String → String → String → (ℤ → Spooler P → ℤ × Spooler P) → List Text → Spooler P → Spooler P
  on_job name arity_message call_message call argv s =
      if not (length argv == 2)
      then s ▷ print (requires_job_id name) ▷ emit (cmd_error arity_message)
      else finish_job name call_message (atoi (arg argv 1)) (call (atoi (arg argv 1)) s)

  unfoldable pub handle_cancel_command : List Text → Spooler P → Spooler P
  handle_cancel_command =
      on_job "cancel" "Invalid arguments for 'cancel'" "cancel_job() failed" cancel_job

  unfoldable pub handle_pause_command : List Text → Spooler P → Spooler P
  handle_pause_command =
      on_job "pause" "Invalid arguments for 'pause'" "pause_job() failed" pause_job

  unfoldable pub handle_resume_command : List Text → Spooler P → Spooler P
  handle_resume_command =
      on_job "resume" "Invalid arguments for 'resume'" "resume_job() failed" resume_job
