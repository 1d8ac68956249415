-- ===== src/Commands.antt =====
-- src/command_handler.c: handle_user_command, over the handlers of the commands.
mod Arguments
mod Types
mod Printers
mod Jobs
mod Help
pub mod Dispatch
pub mod Reports
pub mod Enabling
pub mod Consistency
unfoldable pub use Arguments.*
unfoldable pub use Types.*
unfoldable pub use Printers.*
unfoldable pub use Jobs.*
unfoldable pub use Help.*
use posix_printer_spooler.Prelude.{
  ℕ, zero, suc, ◌-◌, ℤ, success, String, not, none, some, List, [], ◌∷◌, ltb, ◌==◌, int_eq,
  if◌then◌else◌, for_range,
}
use posix_printer_spooler.Text.{Text, text, text_eq}
use posix_printer_spooler.Platform.{Platform}
use posix_printer_spooler.Spooler.{
  Spooler, idle, Line, wrong_number_of_args, command_error, undeclared_file_type, unknown_file_type,
  unrecognized_command, commands_are, printer_line, requires_job_id, failed_job, cmd_ok, cmd_error,
  printed, printer_status, job_status, ◌▷◌, emit, set_printer_status, printer_name, printer_type,
}
use posix_printer_spooler.Printers.{get_printer_count, get_printer_by_name, add_printer_to_system}
use posix_printer_spooler.Jobs.{get_job_count, submit_print_job, try_scheduling_jobs}
use posix_printer_spooler.Control.{cancel_job, pause_job, resume_job}
use posix_printer_spooler.Tokens.{length}
use posix_printer_spooler.Numbers.{atoi}

module _ {P : Platform} where
  unfoldable pub handle_user_command : List Text → Spooler P → Spooler P
  handle_user_command [] s = s
  handle_user_command (cmd ∷ args) s =
      let argv = cmd ∷ args in
      if text_eq cmd (text "help")
      then handle_help_command argv s
      else if text_eq cmd (text "type")
      then handle_type_command argv s
      else if text_eq cmd (text "conversion")
      then handle_conversion_command argv s
      else if text_eq cmd (text "printer")
      then handle_printer_command argv s
      else if text_eq cmd (text "enable")
      then handle_enable_command argv s
      else if text_eq cmd (text "disable")
      then s
        ▷ print (command_error "disable" "not implemented")
        ▷ emit (cmd_error "disable command not implemented")
      else if text_eq cmd (text "printers")
      then handle_printers_command s
      else if text_eq cmd (text "print")
      then handle_print_command argv s
      else if text_eq cmd (text "jobs")
      then handle_jobs_command s
      else if text_eq cmd (text "cancel")
      then handle_cancel_command argv s
      else if text_eq cmd (text "pause")
      then handle_pause_command argv s
      else if text_eq cmd (text "resume")
      then handle_resume_command argv s
      else if text_eq cmd (text "quit")
      then emit cmd_ok s
      else s ▷ print (unrecognized_command cmd) ▷ emit (cmd_error "Unknown command.")
