-- ===== src/Tests/Settling.antt =====
-- A type that is declared before the first job, and a job.
use posix_printer_spooler.Prelude.{some, List, [], ◌∷◌, arith}
use posix_printer_spooler.Text.{Text, text, text_eq}
use posix_printer_spooler.Spooler.{start}
use posix_printer_spooler.Tokens.{split_input_line_into_tokens}
use posix_printer_spooler.Cli.{sigchld, before_blocking, line, run_main, initialize}
use posix_printer_spooler.Cli.Batch.{unlines, pieces, c_string}
use posix_printer_spooler.Jobs.{job_manager_initialize}
use posix_printer_spooler.Settled.{AreSettled}
use posix_printer_spooler.Settled.Session.{run_main-AreSettled}
use posix_printer_spooler.Toy.{toy, toy_forks}
use posix_printer_spooler.Tests.States.{toy_table}

abbrev declaring : List Text
declaring = text "type odt" ∷ text "print a.pdf" ∷ []

run_main-AreSettled_example : AreSettled {P = toy} (
    run_main
      (some (unlines declaring))
      (sigchld ∷ before_blocking [] ∷ line (text "printers") ∷ [])
      (start toy_table 100))
unfolding split_input_line_into_tokens text_eq pieces c_string initialize job_manager_initialize
run_main-AreSettled_example =
    run_main-AreSettled {P = toy} toy_forks (some (unlines declaring))
      (sigchld ∷ before_blocking [] ∷ line (text "printers") ∷ []) toy_table 100
      ((λ _ i h. absurd (omega arith)), ((λ e. ground (arith, e)), tt))
      (tt, ((λ e. ground (arith, e)), tt))
