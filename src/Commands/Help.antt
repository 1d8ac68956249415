-- ===== src/Commands/Help.antt =====
-- src/command_handler.c: the command help, and two functions that nothing calls.
use posix_printer_spooler.Prelude.{not, List, ◌==◌, if◌then◌else◌}
use posix_printer_spooler.Text.{Text}
use posix_printer_spooler.Platform.{Platform}
use posix_printer_spooler.Spooler.{Spooler, commands_are, supported_commands, cmd_ok, ◌▷◌, emit}
use posix_printer_spooler.Tokens.{length}
use posix_printer_spooler.Commands.Arguments.{print, wrong_args}

module _ {P : Platform} where
  abbrev display_help_message : Spooler P → Spooler P
  display_help_message s = print supported_commands s

  -- The line that `help` prints too.
  abbrev print_command_list_summary : Spooler P → Spooler P
  print_command_list_summary s = print commands_are s

  unfoldable pub handle_help_command : List Text → Spooler P → Spooler P
  handle_help_command argv s =
      if not (length argv == 1)
      then wrong_args argv 0 "help" "Invalid number of arguments for 'help'" s
      else s ▷ print commands_are ▷ emit cmd_ok
