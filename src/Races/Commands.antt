-- ===== src/Races/Commands.antt =====
-- The commands keep the flag of the SIGCHLD handler set.
use posix_printer_spooler.Prelude.{
  ℤ, refl, String, not, none, some, List, ◌∷◌, arith, if_elim, ◌==◌, for_range-keeps, inl, inr,
  Bool-cases, Option-cases,
}
use posix_printer_spooler.Text.{Text}
use posix_printer_spooler.Platform.{Platform, WaitStatus}
use posix_printer_spooler.Spooler.{Spooler}
use posix_printer_spooler.Jobs.{
  job_manager_initialize, enqueue_job, register_job, queue_job, submit_print_job,
}
use posix_printer_spooler.Jobs.Submission.{submit_cases}
use posix_printer_spooler.Printers.{
  printer_manager_cleanup, printer_manager_initialize, get_printer_by_name, add_printer_to_system,
}
use posix_printer_spooler.Printers.Registry.{add_cases}
use posix_printer_spooler.Children.{sigchld_handler}
use posix_printer_spooler.Control.{cancel_slot, cancel_job, pause_job, resume_job}
use posix_printer_spooler.Tokens.{length}
use posix_printer_spooler.Numbers.{atoi}
use posix_printer_spooler.Commands.{
  arg, handle_type_command, handle_conversion_command, handle_printer_command, enabled,
  enable_printer, handle_enable_command, list_printer, handle_printers_command,
  handle_print_command, list_job, handle_jobs_command, on_job, handle_cancel_command,
  handle_pause_command, handle_resume_command, handle_help_command, finish_printer, finish_print,
  finish_job, handle_user_command,
}
use posix_printer_spooler.Commands.Dispatch.{command_cases}
use posix_printer_spooler.Races.Flag.{
  IsRaised, try_scheduling_jobs-IsRaised, delete_expired-IsRaised,
}
use posix_printer_spooler.Cli.{process_line, initialize}
use posix_printer_spooler.Cli.Runs.{AnyLine, process_line-keeps}

-- No reports come while a line is executed.
abbrev NoReports : {P : Platform} → List (ℤ × WaitStatus) → Spooler P → Type 0
NoReports reports s = ⊥

module _ {P : Platform} where
  type-IsRaised :
      (argv : List Text) (s : Spooler P) → IsRaised s → IsRaised (handle_type_command argv s)
  unfolding handle_type_command
  type-IsRaised argv s raised = ground (arith, raised)

  conversion-IsRaised :
      (argv : List Text) (s : Spooler P) → IsRaised s → IsRaised (handle_conversion_command argv s)
  unfolding handle_conversion_command
  conversion-IsRaised argv s raised = ground (arith, raised)

  help-IsRaised :
      (argv : List Text) (s : Spooler P) → IsRaised s → IsRaised (handle_help_command argv s)
  unfolding handle_help_command
  help-IsRaised argv s raised = ground (arith, raised)

  finish_printer-IsRaised :
      (name : Text) (r : ℤ × Spooler P) → IsRaised r.1 → IsRaised (finish_printer name r)
  finish_printer-IsRaised name (x, s) raised = ground (arith, raised)

  printer-IsRaised :
      (argv : List Text) (s : Spooler P) → IsRaised s → IsRaised (handle_printer_command argv s)
  unfolding handle_printer_command
  printer-IsRaised argv s raised = elim (Bool-cases (not (length argv == 3))) [
    | inl wrong ↦ rw wrong raised
    | inr right ↦ elim (Option-cases (P.find_type (arg argv 2) s.table)) [
      | inl unknown ↦ rw (right, unknown) raised
      | inr (t, known) ↦
          rw (right, known)
            (finish_printer-IsRaised (arg argv 1)
              (add_printer_to_system (arg argv 1) (arg argv 2) s)
              (add_cases (λ r. IsRaised r.1) (arg argv 1) (arg argv 2) s (λ _. raised)
                (λ t room fresh _. raised)))
    ]
  ]

  enable-IsRaised :
      (argv : List Text) (s : Spooler P) → IsRaised s → IsRaised (handle_enable_command argv s)
  unfolding handle_enable_command enable_printer
  enable-IsRaised argv s raised = elim (Bool-cases (not (length argv == 2))) [
    | inl wrong ↦ rw wrong raised
    | inr right ↦ elim (Option-cases (get_printer_by_name (arg argv 1) s)) [
      | inl missing ↦ rw (right, missing) raised
      | inr (p, found) ↦ rw (right, found) (try_scheduling_jobs-IsRaised (enabled p s) raised)
    ]
  ]

  submit-IsRaised :
      (file_path : Text) (s : Spooler P)
      → IsRaised s
      → IsRaised (submit_print_job (some file_path) none s).1
  unfolding queue_job
  submit-IsRaised f s raised =
      submit_cases (λ r. IsRaised r.1) f none s (λ _. raised)
        (λ t room known e.
          try_scheduling_jobs-IsRaised (enqueue_job s.job_count (register_job f t none s)) raised)
        (λ t p room known e accepted. ground (arith, e))

  finish_print-IsRaised : (r : ℤ × Spooler P) → IsRaised r.1 → IsRaised (finish_print r)
  finish_print-IsRaised (x, s) raised = ground (arith, raised)

  print-IsRaised :
      (argv : List Text) (s : Spooler P) → IsRaised s → IsRaised (handle_print_command argv s)
  unfolding handle_print_command
  print-IsRaised argv s raised = elim (Bool-cases (not (length argv == 2))) [
    | inl wrong ↦ rw wrong raised
    | inr right ↦ elim (Option-cases (P.infer_file_type (arg argv 1) s.table)) [
      | inl unknown ↦ rw (right, unknown) raised
      | inr (t, known) ↦
          rw (right, known)
            (finish_print-IsRaised (submit_print_job (some (arg argv 1)) none s)
              (submit-IsRaised (arg argv 1) s raised))
    ]
  ]

  finish_job-IsRaised :
      (name message : String) (job_id : ℤ) (r : ℤ × Spooler P)
      → IsRaised r.1
      → IsRaised (finish_job name message job_id r)
  finish_job-IsRaised name message job_id (x, s) raised = ground (arith, raised)

  on_job-IsRaised :
      (name arity_message call_message : String) (call : ℤ → Spooler P → ℤ × Spooler P)
      → ((job_id : ℤ) (s : Spooler P) → IsRaised s → IsRaised (call job_id s).1)
      → (argv : List Text) (s : Spooler P) → IsRaised s
      → IsRaised (on_job name arity_message call_message call argv s)
  on_job-IsRaised name arity_message call_message call keep argv s raised =
      if_elim IsRaised (not (length argv == 2)) _ _ raised (
        finish_job-IsRaised name call_message (atoi (arg argv 1)) (call (atoi (arg argv 1)) s)
          (keep (atoi (arg argv 1)) s raised))

  cancel-IsRaised : (job_id : ℤ) (s : Spooler P) → IsRaised s → IsRaised (cancel_job job_id s).1
  unfolding cancel_job cancel_slot
  cancel-IsRaised job_id s raised = ground (arith, raised)

  pause-IsRaised : (job_id : ℤ) (s : Spooler P) → IsRaised s → IsRaised (pause_job job_id s).1
  unfolding pause_job
  pause-IsRaised job_id s raised = ground (arith, raised)

  resume-IsRaised : (job_id : ℤ) (s : Spooler P) → IsRaised s → IsRaised (resume_job job_id s).1
  unfolding resume_job
  resume-IsRaised job_id s raised = ground (arith, raised)

  pub handle_user_command-IsRaised :
      (cmd : Text) (args : List Text) (s : Spooler P)
      → IsRaised s
      → IsRaised (handle_user_command (cmd ∷ args) s)
  unfolding handle_cancel_command handle_pause_command handle_resume_command handle_printers_command
      handle_jobs_command
  handle_user_command-IsRaised cmd args s raised =
      let argv = cmd ∷ args in
      command_cases IsRaised cmd args s (help-IsRaised argv s raised)
        (λ _. type-IsRaised argv s raised) (λ _. conversion-IsRaised argv s raised)
        (printer-IsRaised argv s raised) (λ _. enable-IsRaised argv s raised) raised
        (for_range-keeps IsRaised list_printer (λ i r up. up) s.number_of_registered_printers 0 s
          raised)
        (print-IsRaised argv s raised)
        (for_range-keeps IsRaised list_job (λ i r up. up) s.job_count 0 s raised)
        (λ _.
          on_job-IsRaised "cancel" "Invalid arguments for 'cancel'" "cancel_job() failed" cancel_job
            cancel-IsRaised argv s raised)
        (on_job-IsRaised "pause" "Invalid arguments for 'pause'" "pause_job() failed" pause_job
          pause-IsRaised argv s raised)
        (on_job-IsRaised "resume" "Invalid arguments for 'resume'" "resume_job() failed" resume_job
          resume-IsRaised argv s raised)
        raised raised

  -- A line that the flag finds set leaves it set.
  pub process_line-IsRaised :
      (input_line : Text) (s : Spooler P) → IsRaised s → IsRaised (process_line input_line s).1
  unfolding sigchld_handler initialize printer_manager_initialize printer_manager_cleanup
      job_manager_initialize
  process_line-IsRaised input_line s raised =
      process_line-keeps AnyLine NoReports IsRaised
        (record {
          initialized = λ r up.
              if_elim IsRaised r.initialized _ _ up
                (for_range-keeps IsRaised _ (λ i q up. up) r.number_of_registered_printers 0 r up);
          signalled = λ r up. refl;
          quitting = λ r up. up;
          refused = λ l message r up. up;
          command = λ cmd args r tame up. handle_user_command-IsRaised cmd args r up;
          expiring = delete_expired-IsRaised;
          reported = λ reports r impossible up. absurd impossible;
        })
        input_line s tt raised
