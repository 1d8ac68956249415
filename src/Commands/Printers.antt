-- ===== src/Commands/Printers.antt =====
-- src/command_handler.c: the commands printer, enable and printers.
use posix_printer_spooler.Prelude.{
  ℕ, ◌-◌, ℤ, success, not, none, some, List, ◌==◌, int_eq, if◌then◌else◌, for_range,
}
use posix_printer_spooler.Text.{Text}
use posix_printer_spooler.Platform.{Platform}
use posix_printer_spooler.Spooler.{
  Spooler, idle, command_error, unknown_file_type, printer_line, cmd_ok, cmd_error, printer_status,
  ◌▷◌, emit, set_printer_status, printer_name, printer_type,
}
use posix_printer_spooler.Printers.{get_printer_count, get_printer_by_name, add_printer_to_system}
use posix_printer_spooler.Jobs.{try_scheduling_jobs}
use posix_printer_spooler.Tokens.{length}
use posix_printer_spooler.Commands.Arguments.{arg, print, wrong_args}

module _ {P : Platform} where
  -- `PRINTER: id=…, name=…, type=…, status=…` for the printer in slot `i`, with the id given.
  abbrev print_printer : ℕ → ℕ → Spooler P → Spooler P
  print_printer id i s =
      print (printer_line id (printer_name i s) (printer_type i s) (s.printer_registry i).status) s

  abbrev printer_failed : Spooler P → Spooler P
  printer_failed s = s ▷ emit (cmd_error "printer") ▷ print (command_error "printer" "failed")

  -- The part of `handle_printer_command` behind the registration.
  abbrev pub finish_printer : Text → ℤ × Spooler P → Spooler P
  finish_printer name (r, s) =
      if not (int_eq r success) then printer_failed s else elim (get_printer_by_name name s) [
        | none ↦ emit cmd_ok s
        | some p ↦ s ▷ print_printer (get_printer_count s - 1) p ▷ emit cmd_ok
      ]

  unfoldable pub handle_printer_command : List Text → Spooler P → Spooler P
  handle_printer_command argv s =
      if not (length argv == 3)
      then wrong_args argv 2 "printer" "Invalid number of arguments for 'printer'." s
      else elim (P.find_type (arg argv 2) s.table) [
        | none ↦
            s
            ▷ print (unknown_file_type (arg argv 2))
            ▷ emit (cmd_error "printer")
            ▷ print (command_error "printer" "failed")
        | some file_type ↦
            finish_printer (arg argv 1) (add_printer_to_system (arg argv 1) (arg argv 2) s)
      ]

  -- The printer made IDLE, and the messages about it.
  abbrev pub enabled : ℕ → Spooler P → Spooler P
  enabled p s =
      s
      ▷ set_printer_status p idle
      ▷ emit (printer_status (printer_name p s) idle)
      ▷ print (printer_line (get_printer_count s - 1) (printer_name p s) (printer_type p s) idle)

  -- The part of `handle_enable_command` behind the look-up of the printer.
  unfoldable pub enable_printer : ℕ → Spooler P → Spooler P
  enable_printer p s = s ▷ enabled p ▷ try_scheduling_jobs

  unfoldable pub handle_enable_command : List Text → Spooler P → Spooler P
  unfolding enable_printer
  handle_enable_command argv s =
      if not (length argv == 2)
      then wrong_args argv 1 "enable" "Invalid number of arguments for 'enable'." s
      else elim (get_printer_by_name (arg argv 1) s) [
        | none ↦ s ▷ emit (cmd_error "enable") ▷ print (command_error "enable" "no printer")
        | some p ↦ s ▷ enable_printer p ▷ emit cmd_ok
      ]

  abbrev pub list_printer : ℕ → Spooler P → Spooler P
  list_printer i s = print_printer i i s

  unfoldable pub handle_printers_command : Spooler P → Spooler P
  handle_printers_command s = s ▷ for_range list_printer (get_printer_count s) 0 ▷ emit cmd_ok
