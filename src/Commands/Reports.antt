-- ===== src/Commands/Reports.antt =====
-- Every command reports its outcome once: sf_cmd_ok or sf_cmd_error.
use posix_printer_spooler.Prelude.{
  ℕ, suc, ◌≡◌, refl, ap, ◌∙◌, inl, inr, ℤ, pos, negsuc, is_negative, not, Option, none, some, List,
  [], ◌∷◌, arith, for_range-keeps, Bool-cases, Option-cases, String, ◌==◌,
}
use posix_printer_spooler.Text.{Text, text_eq}
use posix_printer_spooler.Platform.{FileType, Conversion, Platform}
use posix_printer_spooler.Spooler.{Spooler, Effect, cmd_ok, cmd_error, printer_type}
use posix_printer_spooler.Printers.{
  select_compatible_printer, add_printer_to_system, get_printer_by_name,
}
use posix_printer_spooler.Printers.Registry.{add_cases}
use posix_printer_spooler.Jobs.{
  launch, mark_running, start_on, schedule_job, try_scheduling_jobs, is_created, job_type,
  submit_print_job, queue_job, register_job, enqueue_job,
}
use posix_printer_spooler.Jobs.Scheduling.{launch_failed, launch_started}
use posix_printer_spooler.Jobs.Submission.{submit_cases}
use posix_printer_spooler.Tokens.{length}
use posix_printer_spooler.Numbers.{atoi}
use posix_printer_spooler.Commands.{
  arg, handle_type_command, handle_conversion_command, handle_printer_command, enabled,
  handle_enable_command, list_printer, handle_printers_command, handle_print_command, list_job,
  handle_jobs_command, on_job, handle_cancel_command, handle_pause_command, handle_resume_command,
  handle_help_command, handle_user_command,
}
use posix_printer_spooler.Commands.Dispatch.{command_cases}
use posix_printer_spooler.Control.{cancel_job, pause_job, resume_job}

-- The number of reports of outcomes in a trace.
abbrev pub reports : List Effect → ℕ
reports [] = 0
reports (cmd_ok ∷ trace) = suc (reports trace)
reports (cmd_error message ∷ trace) = suc (reports trace)
reports (_ ∷ trace) = reports trace

module _ {P : Platform} where
  abbrev pub IsQuiet : Spooler P → Spooler P → Type 0
  IsQuiet s r = reports r.trace ≡ reports s.trace

  mark_running-IsQuiet :
      (i p : ℕ) (pid : ℤ) (path : Option (List Conversion)) (s : Spooler P)
      → IsQuiet s (mark_running i p pid path s)
  unfolding mark_running
  mark_running-IsQuiet i p pid path s = refl

  launch-IsQuiet :
      (i p : ℕ) (path : Option (List Conversion)) (s : Spooler P) → IsQuiet s (launch i p path s)
  launch-IsQuiet i p path s = elim (Bool-cases (is_negative (P.fork s.world).0)) [
    | inl failed ↦ rw (launch_failed i p path s failed) refl
    | inr started ↦
        rw (launch_started i p path s started) (mark_running-IsQuiet i p (P.fork s.world).0 path _)
  ]

  start_on-IsQuiet : (i : ℕ) (t : FileType) (p : ℕ) (s : Spooler P) → IsQuiet s (start_on i t p s)
  unfolding start_on
  start_on-IsQuiet i t p s = elim (Bool-cases (text_eq t.name (printer_type p s))) [
    | inl direct ↦ rw direct (launch-IsQuiet i p none _)
    | inr other ↦ elim (Option-cases (P.find_conversion_path t.name (printer_type p s) s.table)) [
      | inl missing ↦ rw (other, missing) refl
      | inr (path, found) ↦ rw (other, found) (launch-IsQuiet i p (some path) _)
    ]
  ]

  schedule_job-IsQuiet : (i : ℕ) (s : Spooler P) → IsQuiet s (schedule_job i s)
  unfolding schedule_job
  schedule_job-IsQuiet i s = elim (Bool-cases (is_created (s.job_spool i).status)) [
    | inr other ↦ rw other refl
    | inl waits ↦ elim (Option-cases (job_type i s)) [
      | inl unknown ↦ rw (waits, unknown) refl
      | inr (t, known) ↦ elim (Option-cases (select_compatible_printer (some t) s)) [
        | inl nobody ↦ rw (waits, known, nobody) refl
        | inr (p, chosen) ↦ rw (waits, known, chosen) (start_on-IsQuiet i t p s)
      ]
    ]
  ]

  pub try_scheduling_jobs-IsQuiet : (s : Spooler P) → IsQuiet s (try_scheduling_jobs s)
  unfolding try_scheduling_jobs
  try_scheduling_jobs-IsQuiet s =
      for_range-keeps (IsQuiet s) schedule_job (λ i r h. schedule_job-IsQuiet i r ∙ h) s.job_count 0
        s refl

  add_printer-IsQuiet :
      (name type : Text) (s : Spooler P) → IsQuiet s (add_printer_to_system name type s).1
  add_printer-IsQuiet name type s =
      add_cases (λ r. IsQuiet s r.1) name type s (λ _. refl) (λ t _ _ _. refl)

  submit-IsQuiet :
      (file_path : Text) (s : Spooler P) → IsQuiet s (submit_print_job (some file_path) none s).1
  unfolding queue_job
  submit-IsQuiet file_path s =
      submit_cases (λ r. IsQuiet s r.1) file_path none s (λ _. refl)
        (λ t _ _ _.
          try_scheduling_jobs-IsQuiet (enqueue_job s.job_count (register_job file_path t none s)))
        (λ t p _ _ e. absurd (ground arith))

  cancel-IsQuiet : (job_id : ℤ) (s : Spooler P) → IsQuiet s (cancel_job job_id s).1
  unfolding cancel_job
  cancel-IsQuiet (negsuc i) s = refl
  cancel-IsQuiet (pos i) s = ground arith

  pause-IsQuiet : (job_id : ℤ) (s : Spooler P) → IsQuiet s (pause_job job_id s).1
  unfolding pause_job
  pause-IsQuiet (negsuc i) s = refl
  pause-IsQuiet (pos i) s = ground arith

  resume-IsQuiet : (job_id : ℤ) (s : Spooler P) → IsQuiet s (resume_job job_id s).1
  unfolding resume_job
  resume-IsQuiet (negsuc i) s = refl
  resume-IsQuiet (pos i) s = ground arith

  -- One report more.
  abbrev pub ReportsOnce : Spooler P → Spooler P → Type 0
  ReportsOnce s r = reports r.trace ≡ suc (reports s.trace)

  type-ReportsOnce : (argv : List Text) (s : Spooler P) → ReportsOnce s (handle_type_command argv s)
  unfolding handle_type_command
  type-ReportsOnce argv s = ground arith

  conversion-ReportsOnce :
      (argv : List Text) (s : Spooler P) → ReportsOnce s (handle_conversion_command argv s)
  unfolding handle_conversion_command
  conversion-ReportsOnce argv s = ground arith

  printer-ReportsOnce :
      (argv : List Text) (s : Spooler P) → ReportsOnce s (handle_printer_command argv s)
  unfolding handle_printer_command
  printer-ReportsOnce argv s = ground (arith, add_printer-IsQuiet (arg argv 1) (arg argv 2) s)

  enable-ReportsOnce :
      (argv : List Text) (s : Spooler P) → ReportsOnce s (handle_enable_command argv s)
  unfolding handle_enable_command
  enable-ReportsOnce argv s = elim (Bool-cases (not (length argv == 2))) [
    | inl wrong ↦ rw wrong refl
    | inr right ↦ elim (Option-cases (get_printer_by_name (arg argv 1) s)) [
      | inl missing ↦ rw (right, missing) refl
      | inr (p, found) ↦ rw (right, found) (ap suc (try_scheduling_jobs-IsQuiet (enabled p s)))
    ]
  ]

  printers-ReportsOnce : (s : Spooler P) → ReportsOnce s (handle_printers_command s)
  unfolding handle_printers_command
  printers-ReportsOnce s = ap suc (
      for_range-keeps (IsQuiet s) list_printer (λ i r h. h) s.number_of_registered_printers 0 s
        refl)

  print-ReportsOnce :
      (argv : List Text) (s : Spooler P) → ReportsOnce s (handle_print_command argv s)
  unfolding handle_print_command
  print-ReportsOnce argv s = ground (arith, submit-IsQuiet (arg argv 1) s)

  jobs-ReportsOnce : (s : Spooler P) → ReportsOnce s (handle_jobs_command s)
  unfolding handle_jobs_command
  jobs-ReportsOnce s =
      ap suc (for_range-keeps (IsQuiet s) list_job (λ i r h. h) s.job_count 0 s refl)

  on_job-ReportsOnce :
      (name arity_message call_message : String) (call : ℤ → Spooler P → ℤ × Spooler P)
      → ((job_id : ℤ) (s : Spooler P) → IsQuiet s (call job_id s).1)
      → (argv : List Text) (s : Spooler P)
      → ReportsOnce s (on_job name arity_message call_message call argv s)
  on_job-ReportsOnce name arity_message call_message call quiet argv s =
      ground (arith, quiet (atoi (arg argv 1)) s)

  help-ReportsOnce : (argv : List Text) (s : Spooler P) → ReportsOnce s (handle_help_command argv s)
  unfolding handle_help_command
  help-ReportsOnce argv s = ground arith

  -- Every command that has a first token, known or not, with any arguments, reports its outcome
  -- exactly once, by sf_cmd_ok or by sf_cmd_error.
  pub handle_user_command-ReportsOnce :
      (cmd : Text) (args : List Text) (s : Spooler P)
      → ReportsOnce s (handle_user_command (cmd ∷ args) s)
  unfolding handle_cancel_command handle_pause_command handle_resume_command
  handle_user_command-ReportsOnce cmd args s =
      let argv = cmd ∷ args in
      command_cases (ReportsOnce s) cmd args s (help-ReportsOnce argv s)
        (λ _. type-ReportsOnce argv s) (λ _. conversion-ReportsOnce argv s)
        (printer-ReportsOnce argv s) (λ _. enable-ReportsOnce argv s) refl (printers-ReportsOnce s)
        (print-ReportsOnce argv s) (jobs-ReportsOnce s)
        (λ _.
          on_job-ReportsOnce "cancel" "Invalid arguments for 'cancel'" "cancel_job() failed"
            cancel_job cancel-IsQuiet argv s)
        (on_job-ReportsOnce "pause" "Invalid arguments for 'pause'" "pause_job() failed" pause_job
          pause-IsQuiet argv s)
        (on_job-ReportsOnce "resume" "Invalid arguments for 'resume'" "resume_job() failed"
          resume_job resume-IsQuiet argv s)
        refl refl
