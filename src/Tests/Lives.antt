-- ===== src/Tests/Lives.antt =====
-- A session in which a printer is enabled, a job is started on it, and the job is reported as stopped and
-- later as exited.
use posix_printer_spooler.Prelude.{
  zero, suc, ℤ, pos, ◌≡◌, refl, false, some, List, [], ◌∷◌, arith, for_range, first_index, inl, inr,
}
use posix_printer_spooler.Text.{Text, text, text_eq}
use posix_printer_spooler.Platform.{stopped, exited}
use posix_printer_spooler.Spooler.{start, Spooler}
use posix_printer_spooler.Printers.{get_printer_by_name, add_printer_to_system}
use posix_printer_spooler.Jobs.{try_scheduling_jobs, submit_print_job, queue_job, schedule_job}
use posix_printer_spooler.Jobs.Consistency.{IsActive, IsConsistent}
use posix_printer_spooler.Expiry.{delete_expired_jobs_if_needed}
use posix_printer_spooler.Children.{handle_child_status_updates, sigchld_handler}
use posix_printer_spooler.Children.Consistency.{ActiveFrom}
use posix_printer_spooler.Tokens.{split_input_line_into_tokens}
use posix_printer_spooler.Commands.{
  handle_user_command, handle_print_command, handle_enable_command, handle_printer_command,
}
use posix_printer_spooler.Cli.{
  Input, sigchld, before_blocking, line, run_main, process_line, initialize,
}
use posix_printer_spooler.Cli.Batch.{unlines, pieces, c_string, run_lines}
use posix_printer_spooler.Cli.Session.{AccurateNow, CarefulLines, Careful, run_main-IsConsistent}
use posix_printer_spooler.Cli.Runs.{TameInputs, AnyLine, at_prompt, lines_in}
use posix_printer_spooler.Lifecycle.{Moves}
use posix_printer_spooler.Lifecycle.Session.{run_main-Moves, IsTable, run_main-IsTable}
use posix_printer_spooler.Toy.{toy, type_named, extension}
use posix_printer_spooler.Tests.States.{toy_table, blank}

abbrev script : List Text
script = text "printer alice pdf" ∷ text "enable alice" ∷ text "print a.pdf" ∷ []

abbrev inputs : List Input
inputs =
    sigchld
    ∷ before_blocking ((pos 1103, stopped) ∷ [])
    ∷ sigchld
    ∷ before_blocking ((pos 1103, exited 0) ∷ [])
    ∷ line (text "jobs")
    ∷ []

abbrev prompt : Spooler toy
prompt = at_prompt (some (unlines script)) (start {P = toy} toy_table 100)

-- When a report is read, the flag is cleared.
abbrev cleared_flag : Spooler toy → Spooler toy
cleared_flag s = record s { child_signal_received = false }

abbrev after_stop : Spooler toy
after_stop = handle_child_status_updates ((pos 1103, stopped) ∷ []) (sigchld_handler prompt)

one_active :
    (s : Spooler toy) (reported : ℤ)
    → s.job_count ≡ 1
    → IsActive (s.job_spool 0).status
    → ActiveFrom reported 0 s
one_active s reported one active zero l h e = active
one_active s reported one active (suc k) l h e = absurd (omega (arith, one))

-- The job is RUNNING at the first report, and PAUSED at the second.
inputs-TameInputs : TameInputs AnyLine AccurateNow inputs prompt
unfolding initialize sigchld_handler run_lines process_line for_range first_index text_eq pieces
    c_string split_input_line_into_tokens delete_expired_jobs_if_needed handle_user_command
    handle_print_command type_named handle_enable_command get_printer_by_name handle_printer_command
    add_printer_to_system try_scheduling_jobs extension submit_print_job queue_job schedule_job
    handle_child_status_updates
inputs-TameInputs = (
  (one_active (cleared_flag (sigchld_handler prompt)) (pos 1103) refl (inl refl), tt),
  (
    (one_active (cleared_flag (sigchld_handler after_stop)) (pos 1103) refl (inr refl), tt),
    (tt, tt),
  ),
)

-- The printer is enabled before there is a job.
script-CarefulLines : CarefulLines (lines_in (some (unlines script))) (initialize blank)
unfolding initialize sigchld_handler run_lines process_line for_range first_index text_eq pieces
    c_string split_input_line_into_tokens delete_expired_jobs_if_needed handle_user_command
    handle_print_command type_named handle_enable_command get_printer_by_name handle_printer_command
    add_printer_to_system try_scheduling_jobs extension submit_print_job queue_job schedule_job
script-CarefulLines = (
  (λ e. absurd (ground (arith, e))),
  ((λ e p i found h. absurd (omega (arith, h.0))), ((λ e. absurd (ground (arith, e))), tt)),
)

inputs-Careful : Careful inputs prompt
unfolding initialize sigchld_handler run_lines process_line for_range first_index text_eq pieces
    c_string split_input_line_into_tokens delete_expired_jobs_if_needed handle_user_command
    handle_print_command type_named handle_enable_command get_printer_by_name handle_printer_command
    add_printer_to_system try_scheduling_jobs extension submit_print_job queue_job schedule_job
    handle_child_status_updates
inputs-Careful = (
  (one_active (cleared_flag (sigchld_handler prompt)) (pos 1103) refl (inl refl), tt),
  (
    (one_active (cleared_flag (sigchld_handler after_stop)) (pos 1103) refl (inr refl), tt),
    ((λ e. absurd (ground (arith, e))), tt),
  ),
)

run_main-IsConsistent_example :
    IsConsistent (run_main (some (unlines script)) inputs (start {P = toy} toy_table 100))
run_main-IsConsistent_example =
    run_main-IsConsistent {P = toy} (some (unlines script)) inputs toy_table 100 script-CarefulLines
      inputs-Careful

run_main-Moves_example :
    Moves
      (start {P = toy} toy_table 100)
      (run_main (some (unlines script)) inputs (start {P = toy} toy_table 100))
run_main-Moves_example =
    run_main-Moves {P = toy} (some (unlines script)) inputs toy_table 100 inputs-TameInputs

run_main-IsTable_example :
    IsTable (run_main (some (unlines script)) inputs (start {P = toy} toy_table 100))
run_main-IsTable_example =
    run_main-IsTable {P = toy} (some (unlines script)) inputs toy_table 100 inputs-TameInputs
