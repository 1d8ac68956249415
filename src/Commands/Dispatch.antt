-- ===== src/Commands/Dispatch.antt =====
-- The branches of handle_user_command, as one rule of cases.
use posix_printer_spooler.Prelude.{◌≡◌, true, List, ◌∷◌, if_elim, if_then_elim}
use posix_printer_spooler.Text.{Text, text, text_eq}
use posix_printer_spooler.Platform.{Platform}
use posix_printer_spooler.Spooler.{
  Spooler, cmd_ok, cmd_error, command_error, unrecognized_command, printed, emit,
}
use posix_printer_spooler.Commands.{
  handle_type_command, handle_conversion_command, handle_printer_command, handle_enable_command,
  handle_printers_command, handle_print_command, handle_jobs_command, handle_cancel_command,
  handle_pause_command, handle_resume_command, handle_help_command, handle_user_command,
}

-- The cases are given in the order of the tests. Some may use their test; `disable`,
-- `quit` and an unknown command only write to the trace.
pub command_cases {κ} :
    {P : Platform} (Q : Spooler P → Type κ) (cmd : Text) (args : List Text) (s : Spooler P)
    → Q (handle_help_command (cmd ∷ args) s)
    → (text_eq cmd (text "type") ≡ true → Q (handle_type_command (cmd ∷ args) s))
    → (text_eq cmd (text "conversion") ≡ true → Q (handle_conversion_command (cmd ∷ args) s))
    → Q (handle_printer_command (cmd ∷ args) s)
    → (text_eq cmd (text "enable") ≡ true → Q (handle_enable_command (cmd ∷ args) s))
    → Q (
        emit
          (cmd_error "disable command not implemented")
          (emit (printed (command_error "disable" "not implemented")) s))
    → Q (handle_printers_command s)
    → Q (handle_print_command (cmd ∷ args) s)
    → Q (handle_jobs_command s)
    → (text_eq cmd (text "cancel") ≡ true → Q (handle_cancel_command (cmd ∷ args) s))
    → Q (handle_pause_command (cmd ∷ args) s)
    → Q (handle_resume_command (cmd ∷ args) s)
    → Q (emit cmd_ok s)
    → Q (emit (cmd_error "Unknown command.") (emit (printed (unrecognized_command cmd)) s))
    → Q (handle_user_command (cmd ∷ args) s)
unfolding handle_user_command
command_cases Q cmd args s help type conversion printer enable disable printers print jobs cancel
      pause resume quit unknown =
    if_elim Q _ _ _ help (
      if_then_elim Q _ _ _ type (
        if_then_elim Q _ _ _ conversion (
          if_elim Q _ _ _ printer (
            if_then_elim Q _ _ _ enable (
              if_elim Q _ _ _ disable (
                if_elim Q _ _ _ printers (
                  if_elim Q _ _ _ print (
                    if_elim Q _ _ _ jobs (
                      if_then_elim Q _ _ _ cancel (
                        if_elim Q _ _ _ pause
                          (if_elim Q _ _ _ resume (if_elim Q _ _ _ quit unknown))))))))))))
