-- ===== src/Output.antt =====
-- The text that the program prints, byte by byte: the format strings of src/command_handler.c and
-- src/job_manager.c with their arguments.
pub mod Fields
pub mod Listing
pub mod Session
use posix_printer_spooler.Prelude.{
  ℕ, zero, suc, ℤ, pos, negsuc, String, Option, none, some, List, [], ◌∷◌, ◌++◌,
}
use posix_printer_spooler.Text.{Text, text}
use posix_printer_spooler.Numbers.Decimal.{decimal}
use posix_printer_spooler.Spooler.{
  PrinterStatus, JobStatus, Line, wrong_number_of_args, command_error, undeclared_file_type,
  unknown_file_type, unrecognized_command, commands_are, supported_commands, printer_line, job_line,
  requires_job_id, failed_job, Effect, printed,
}

-- What stands in lib/presi.a and in the C library: the names of the statuses, which
-- include/presi.h declares, and `strftime` with "%d %b %H:%M:%S" on the local time.
pub record Names : Type 0 where
  pub printer_status_names : PrinterStatus → Text
  pub job_status_names : JobStatus → Text
  pub strftime : ℕ → Text

-- `%d`
abbrev int_text : ℤ → Text
int_text (pos n) = decimal n
int_text (negsuc n) = b'-' ∷ decimal (suc n)

-- The pieces of a format string and its arguments, one behind the other.
abbrev pub printf : List Text → Text
printf [] = []
printf (piece ∷ rest) = piece ++ printf rest

abbrev help_text : Text
help_text = printf (
    text "Supported commands:\n"
    ∷ text "  help                                - Show this help message.\n"
    ∷ text "  quit                                - Exit the program.\n"
    ∷ text "  type <file_type>                    - Declare a supported file type.\n"
    ∷ text "  conversion <from> <to> <cmd...>     - Define a conversion between file types.\n"
    ∷ text "  printer <name> <type>               - Declare a printer for a given file type.\n"
    ∷ text "  enable <printer>                    - Enable a previously declared printer.\n"
    ∷ text "  print <filename>                    - Submit a print job for a file.\n"
    ∷ text "  cancel <job_id>                     - Cancel a running job.\n"
    ∷ text "  pause <job_id>                      - Pause a running job.\n"
    ∷ text "  resume <job_id>                     - Resume a paused job.\n"
    ∷ text
        "  printers                            - List all registered printers and their status.\n"
    ∷ text "  jobs                                - List all submitted jobs.\n"
    ∷ [])

abbrev summary_text : Text
summary_text = printf (
    text "Commands are: help quit type printer conversion printers jobs print "
    ∷ text "cancel disable enable pause resume\n"
    ∷ [])

module _ (N : Names) where
  abbrev pub format_printer : ℕ → Text → Text → PrinterStatus → Text
  format_printer id name type status = printf (
      text "PRINTER: id="
      ∷ decimal id
      ∷ text ", name="
      ∷ name
      ∷ text ", type="
      ∷ type
      ∷ text ", status="
      ∷ N.printer_status_names status
      ∷ text "\n"
      ∷ [])

  -- `job->target_printer ? ", printer=" : ""` and the name.
  abbrev target_text : Option Text → Text
  target_text none = []
  target_text (some name) = text ", printer=" ++ name

  abbrev pub format_job : ℕ → Text → ℕ → ℕ → JobStatus → Text → Option Text → Text
  format_job id type created_at changed_at status file target = printf (
      text "JOB["
      ∷ decimal id
      ∷ text "]: type="
      ∷ type
      ∷ text ", creation("
      ∷ N.strftime created_at
      ∷ text "), status("
      ∷ N.strftime changed_at
      ∷ text ")="
      ∷ N.job_status_names status
      ∷ text ", eligible=ffffffff, file="
      ∷ file
      ∷ target_text target
      ∷ text "\n"
      ∷ [])

  -- The text of a line.
  unfoldable pub render : Line → Text
  render (wrong_number_of_args given required name) = printf (
      text "Wrong number of args (given: "
      ∷ decimal given
      ∷ text ", required: "
      ∷ decimal required
      ∷ text ") for CLI command '"
      ∷ text name
      ∷ text "'\n"
      ∷ [])
  render (command_error name what) =
      printf (text "Command error: " ∷ text name ∷ text " (" ∷ text what ∷ text ")\n" ∷ [])
  render (undeclared_file_type name) = text "Undeclared file type: " ++ (name ++ text "\n")
  render (unknown_file_type name) = text "Unknown file type: " ++ (name ++ text "\n")
  render (unrecognized_command name) = text "Unrecognized command: " ++ (name ++ text "\n")
  render commands_are = summary_text
  render supported_commands = help_text
  render (printer_line id name type status) = format_printer id name type status
  render (job_line id type created_at changed_at status file target) =
      format_job id type created_at changed_at status file target
  render (requires_job_id name) =
      printf (text "Error: '" ∷ text name ∷ text "' requires 1 argument: <job_id>\n" ∷ [])
  render (failed_job name id) =
      printf (text "Error: Failed to " ∷ text name ∷ text " job " ∷ int_text id ∷ text "\n" ∷ [])

  -- All that was printed, in the order of printing.
  unfoldable pub output : List Effect → Text
  unfolding render
  output [] = []
  output (printed line ∷ trace) = output trace ++ render line
  output (_ ∷ trace) = output trace
