-- ===== src/Tests/Sessions.antt =====
-- Lines, tokens and whole sessions.
use posix_printer_spooler.Prelude.{◌≡◌, ◌⊎◌, true, false, refl, some, List, [], ◌∷◌, arith}
use posix_printer_spooler.Text.{Text, text, text_eq}
use posix_printer_spooler.Spooler.{start}
use posix_printer_spooler.Tokens.{max_command_tokens, split_input_line_into_tokens}
use posix_printer_spooler.Tokens.Words.{split-words, words, take, starts_word}
use posix_printer_spooler.Tokens.Layout.{AllWords, split-lay_out, split-AllWords}
use posix_printer_spooler.Prelude.{pos}
use posix_printer_spooler.Owned.{AreOwn}
use posix_printer_spooler.Owned.Session.{run_main-AreOwn}
use posix_printer_spooler.Platform.{stopped}
use posix_printer_spooler.Control.{cancel_job, pause_job, resume_job}
use posix_printer_spooler.Numbers.{atoi}
use posix_printer_spooler.Numbers.Decimal.{atoi-decimal, digits_onto}
use posix_printer_spooler.Commands.{finish_job}
use posix_printer_spooler.Events.{IsAnnounced}
use posix_printer_spooler.Events.Session.{run_main-IsAnnounced}
use posix_printer_spooler.Cli.{sigchld, before_blocking}
use posix_printer_spooler.Cli.{Input}
use posix_printer_spooler.Cli.Answers.{run_main-answers}
use posix_printer_spooler.Commands.Reports.{reports}
use posix_printer_spooler.Cli.Ids.{after_command, process_line-on_number}
use posix_printer_spooler.Cli.Lines.{process_line-dispatches}
use posix_printer_spooler.Cli.{
  process_line, dispatch_tokens, run_main, run_cli_batch, line, initialize,
}
use posix_printer_spooler.Cli.Batch.{unlines, run_lines, pieces, c_string, run_cli_batch-file_lines}
use posix_printer_spooler.Toy.{toy}
use posix_printer_spooler.Tests.States.{toy_table, blank}

split-words_example :
    split_input_line_into_tokens (text " cancel  0") ≡ text "cancel" ∷ text "0" ∷ []
unfolding words
split-words_example = split-words (text " cancel  0")

split-lay_out_example :
    split_input_line_into_tokens (text " cancel  0 ") ≡ text "cancel" ∷ text "0" ∷ []
split-lay_out_example =
    split-lay_out (text " ") ((text "cancel", text "  ") ∷ (text "0", text " ") ∷ []) (refl, tt)
      (
        (refl, (refl, (refl, (refl, (refl, (refl, tt)))))),
        (refl, (refl, tt)),
        ((refl, tt), (refl, tt), tt),
      )

split-AllWords_example : AllWords (split_input_line_into_tokens (text " cancel  0"))
split-AllWords_example = split-AllWords (text " cancel  0")

abbrev script : List Text
script = text "print a.pdf" ∷ text "jobs" ∷ []

-- A file whose last line has no newline.
run_cli_batch-file_lines_example :
    run_cli_batch (text "help") blank ≡ run_lines (text "help" ∷ []) (initialize blank)
unfolding pieces c_string
run_cli_batch-file_lines_example = run_cli_batch-file_lines (text "help") blank

process_line-dispatches_example :
    ((starts_word (text "jobs") ≡ false) × (process_line (text "jobs") blank ≡ (false, blank)))
    ⊎ ((starts_word (text "jobs") ≡ true)
        × (cmd : Text) × (args : List Text) × (take max_command_tokens (words (text "jobs"))
            ≡ cmd ∷ args)
        × (process_line (text "jobs") blank ≡ dispatch_tokens (cmd ∷ args) blank))
process_line-dispatches_example = process_line-dispatches (text "jobs") blank

atoi-decimal_example : atoi (text "1203") ≡ pos 1203
unfolding digits_onto
atoi-decimal_example = atoi-decimal 1203

process_line-on_number_example :
    (process_line (text "cancel 12") blank
      ≡ after_command
          (finish_job "cancel" "cancel_job() failed" (pos 12) (cancel_job (pos 12) blank)))
    × (process_line (text "pause 12") blank
        ≡ after_command
            (finish_job "pause" "pause_job() failed" (pos 12) (pause_job (pos 12) blank)))
    × (process_line (text "resume 12") blank
        ≡ after_command
            (finish_job "resume" "resume_job() failed" (pos 12) (resume_job (pos 12) blank)))
unfolding digits_onto
process_line-on_number_example = process_line-on_number 12 blank

run_main-IsAnnounced_example :
    IsAnnounced {P = toy}
      (run_main (some (unlines script)) (line (text "printers") ∷ []) (start toy_table 100))
run_main-IsAnnounced_example =
    run_main-IsAnnounced {P = toy} (some (unlines script)) (line (text "printers") ∷ []) toy_table
      100

-- The indented line and the one behind `quit` are not answered.
abbrev typed : List Input
typed = line (text " help") ∷ line (text "printers") ∷ line (text "quit") ∷ line (text "jobs") ∷ []

run_main-answers_example :
    reports (run_main (some (unlines script)) typed (start {P = toy} toy_table 100)).trace ≡ 4
unfolding split_input_line_into_tokens text_eq pieces c_string
run_main-answers_example = run_main-answers toy (some (unlines script)) typed toy_table 100

-- A job is started, paused by the user, reported as stopped, and cancelled.
abbrev controlled : List Input
controlled =
    line (text "printer alice pdf")
    ∷ line (text "enable alice")
    ∷ line (text "pause 0")
    ∷ sigchld
    ∷ before_blocking ((pos 1104, stopped) ∷ [])
    ∷ line (text "cancel 0")
    ∷ []

run_main-AreOwn_example :
    AreOwn (run_main (some (unlines script)) controlled (start {P = toy} toy_table 100)).trace
run_main-AreOwn_example =
    run_main-AreOwn toy (some (unlines script)) controlled toy_table 100
      (tt, (tt, (tt, ((omega arith, tt), (tt, tt)))))
