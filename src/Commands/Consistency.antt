-- ===== src/Commands/Consistency.antt =====
-- The commands keep the invariant of jobs and printers.
use posix_printer_spooler.Prelude.{
  ℕ, ◌≡◌, refl, inl, inr, ℤ, String, true, not, none, some, List, ◌∷◌, arith, ◌==◌, for_range,
  for_range-keeps, Bool-cases, Option-cases, if_elim,
}
use posix_printer_spooler.Text.{Text, text, text_eq}
use posix_printer_spooler.Platform.{FileType, Platform}
use posix_printer_spooler.Spooler.{Spooler, Effect, cmd_ok, emit}
use posix_printer_spooler.Printers.{get_printer_by_name, add_printer_to_system, register_printer}
use posix_printer_spooler.Printers.Registry.{add_cases}
use posix_printer_spooler.Jobs.{submit_print_job}
use posix_printer_spooler.Jobs.Consistency.{
  Holds, IsConsistent, renamed-IsConsistent, same-IsConsistent,
}
use posix_printer_spooler.Jobs.Submission.Consistency.{submit-IsConsistent}
use posix_printer_spooler.Tokens.{length}
use posix_printer_spooler.Numbers.{atoi}
use posix_printer_spooler.Control.{cancel_job, pause_job, resume_job}
use posix_printer_spooler.Control.Cancel.{cancel-IsConsistent}
use posix_printer_spooler.Control.Signals.{SameTables, pause_job-Signals, resume_job-Signals}
use posix_printer_spooler.Commands.{
  arg, handle_type_command, handle_conversion_command, handle_printer_command, enable_printer,
  handle_enable_command, list_printer, handle_printers_command, handle_print_command, list_job,
  handle_jobs_command, on_job, handle_cancel_command, handle_pause_command, handle_resume_command,
  handle_help_command, finish_printer, finish_print, finish_job, handle_user_command,
}
use posix_printer_spooler.Commands.Dispatch.{command_cases}
use posix_printer_spooler.Commands.Enabling.{enable-IsConsistent}

module _ {P : Platform} where
  SameTables-IsConsistent : (s r : Spooler P) → SameTables s r → IsConsistent s → IsConsistent r
  SameTables-IsConsistent s r t c =
      same-IsConsistent s r t.same_jobs t.same_printers t.same_spool t.same_registry c

  pub type-SameTables :
      (argv : List Text) (s : Spooler P) → SameTables s (handle_type_command argv s)
  unfolding handle_type_command
  type-SameTables argv s = record {
    same_spool = ground arith;
    same_jobs = ground arith;
    same_registry = ground arith;
    same_printers = ground arith;
    quiet = record { same_history = ground arith; stays_on = λ up. ground (arith, up) };
  }

  pub conversion-SameTables :
      (argv : List Text) (s : Spooler P) → SameTables s (handle_conversion_command argv s)
  unfolding handle_conversion_command
  conversion-SameTables argv s = record {
    same_spool = ground arith;
    same_jobs = ground arith;
    same_registry = ground arith;
    same_printers = ground arith;
    quiet = record { same_history = ground arith; stays_on = λ up. ground (arith, up) };
  }

  pub help-SameTables :
      (argv : List Text) (s : Spooler P) → SameTables s (handle_help_command argv s)
  unfolding handle_help_command
  help-SameTables argv s = record {
    same_spool = ground arith;
    same_jobs = ground arith;
    same_registry = ground arith;
    same_printers = ground arith;
    quiet = record { same_history = ground arith; stays_on = λ up. ground (arith, up) };
  }

  emitted-IsConsistent : (e : Effect) (s : Spooler P) → IsConsistent s → IsConsistent (emit e s)
  emitted-IsConsistent e s c = same-IsConsistent s (emit e s) refl refl refl refl c

  register-IsConsistent :
      (name : Text) (t : FileType) (s : Spooler P)
      → IsConsistent s
      → IsConsistent (register_printer name t s)
  register-IsConsistent name t s c =
      renamed-IsConsistent (λ k. k) s (register_printer name t s) (λ j k e. e) c.bounded c.placed
        (λ k q h. h) (λ k q h b. (omega (arith, b.0), ground arith)) c

  add_printer-IsConsistent :
      (name type : Text) (s : Spooler P)
      → IsConsistent s
      → IsConsistent (add_printer_to_system name type s).1
  add_printer-IsConsistent name type s c =
      add_cases (λ r. IsConsistent r.1) name type s (λ _. c)
        (λ t _ _ _. register-IsConsistent name t s c)

  pub finish_printer-SameTables :
      (name : Text) (r : ℤ × Spooler P) → SameTables r.1 (finish_printer name r)
  finish_printer-SameTables name (x, s) = record {
    same_spool = ground arith;
    same_jobs = ground arith;
    same_registry = ground arith;
    same_printers = ground arith;
    quiet = record { same_history = ground arith; stays_on = λ up. ground (arith, up) };
  }

  pub finish_print-SameTables : (r : ℤ × Spooler P) → SameTables r.1 (finish_print r)
  finish_print-SameTables (x, s) = record {
    same_spool = ground arith;
    same_jobs = ground arith;
    same_registry = ground arith;
    same_printers = ground arith;
    quiet = record { same_history = ground arith; stays_on = λ up. ground (arith, up) };
  }

  pub finish_job-SameTables :
      (name message : String) (job_id : ℤ) (r : ℤ × Spooler P)
      → SameTables r.1 (finish_job name message job_id r)
  finish_job-SameTables name message job_id (x, s) = record {
    same_spool = ground arith;
    same_jobs = ground arith;
    same_registry = ground arith;
    same_printers = ground arith;
    quiet = record { same_history = ground arith; stays_on = λ up. ground (arith, up) };
  }

  printer-IsConsistent :
      (argv : List Text) (s : Spooler P)
      → IsConsistent s
      → IsConsistent (handle_printer_command argv s)
  unfolding handle_printer_command
  printer-IsConsistent argv s c = elim (Bool-cases (not (length argv == 3))) [
    | inl wrong ↦ rw wrong (same-IsConsistent s _ refl refl refl refl c)
    | inr right ↦ elim (Option-cases (P.find_type (arg argv 2) s.table)) [
      | inl unknown ↦ rw (right, unknown) (same-IsConsistent s _ refl refl refl refl c)
      | inr (t, known) ↦
          rw (right, known)
            (SameTables-IsConsistent _ _
              (finish_printer-SameTables (arg argv 1)
                (add_printer_to_system (arg argv 1) (arg argv 2) s))
              (add_printer-IsConsistent (arg argv 1) (arg argv 2) s c))
    ]
  ]

  print-IsConsistent :
      (argv : List Text) (s : Spooler P)
      → IsConsistent s
      → IsConsistent (handle_print_command argv s)
  unfolding handle_print_command
  print-IsConsistent argv s c = elim (Bool-cases (not (length argv == 2))) [
    | inl wrong ↦ rw wrong (same-IsConsistent s _ refl refl refl refl c)
    | inr right ↦ elim (Option-cases (P.infer_file_type (arg argv 1) s.table)) [
      | inl unknown ↦ rw (right, unknown) (same-IsConsistent s _ refl refl refl refl c)
      | inr (t, known) ↦
          rw (right, known)
            (SameTables-IsConsistent _ _
              (finish_print-SameTables (submit_print_job (some (arg argv 1)) none s))
              (submit-IsConsistent (arg argv 1) none s (λ p e. ground arith) c))
    ]
  ]

  on_job-IsConsistent :
      (name arity_message call_message : String) (call : ℤ → Spooler P → ℤ × Spooler P)
      → ((job_id : ℤ) (s : Spooler P) → IsConsistent s → IsConsistent (call job_id s).1)
      → (argv : List Text) (s : Spooler P) → IsConsistent s
      → IsConsistent (on_job name arity_message call_message call argv s)
  on_job-IsConsistent name arity_message call_message call keep argv s c =
      if_elim IsConsistent (not (length argv == 2)) _ _
        (same-IsConsistent s _ refl refl refl refl c)
        (SameTables-IsConsistent _ _
          (finish_job-SameTables name call_message (atoi (arg argv 1)) (call (atoi (arg argv 1)) s))
          (keep (atoi (arg argv 1)) s c))

  enable-command-IsConsistent :
      (argv : List Text) (s : Spooler P)
      → ((p i : ℕ) → get_printer_by_name (arg argv 1) s ≡ some p → ¬ Holds s i p)
      → IsConsistent s
      → IsConsistent (handle_enable_command argv s)
  unfolding handle_enable_command
  enable-command-IsConsistent argv s free c = elim (Bool-cases (not (length argv == 2))) [
    | inl wrong ↦ rw wrong (same-IsConsistent s _ refl refl refl refl c)
    | inr right ↦ elim (Option-cases (get_printer_by_name (arg argv 1) s)) [
      | inl missing ↦ rw (right, missing) (same-IsConsistent s _ refl refl refl refl c)
      | inr (p, found) ↦
          rw (right, found)
            (emitted-IsConsistent cmd_ok (enable_printer p s)
              (enable-IsConsistent p s (λ i. free p i found) c))
    ]
  ]

  -- Every command keeps the invariant of jobs and printers, whatever its arguments and its outcome,
  -- with one exception: `enable` on a printer that an active job holds.
  pub handle_user_command-IsConsistent :
      (cmd : Text) (args : List Text) (s : Spooler P)
      → (text_eq cmd (text "enable") ≡ true
          → (p i : ℕ) → get_printer_by_name (arg (cmd ∷ args) 1) s ≡ some p
          → ¬ Holds s i p)
      → IsConsistent s
      → IsConsistent (handle_user_command (cmd ∷ args) s)
  unfolding handle_cancel_command handle_pause_command handle_resume_command handle_printers_command
      handle_jobs_command
  handle_user_command-IsConsistent cmd args s free c =
      let argv = cmd ∷ args in
      command_cases IsConsistent cmd args s (SameTables-IsConsistent s _ (help-SameTables argv s) c)
        (λ _. SameTables-IsConsistent s _ (type-SameTables argv s) c)
        (λ _. SameTables-IsConsistent s _ (conversion-SameTables argv s) c)
        (printer-IsConsistent argv s c)
        (λ is_enable. enable-command-IsConsistent argv s (free is_enable) c)
        (same-IsConsistent s _ refl refl refl refl c)
        (emitted-IsConsistent cmd_ok (for_range list_printer s.number_of_registered_printers 0 s) (
          for_range-keeps IsConsistent list_printer (λ i r. emitted-IsConsistent _ r)
            s.number_of_registered_printers 0 s c))
        (print-IsConsistent argv s c)
        (emitted-IsConsistent cmd_ok (for_range list_job s.job_count 0 s) (
          for_range-keeps IsConsistent list_job (λ i r. emitted-IsConsistent _ r) s.job_count 0 s
            c))
        (λ _.
          on_job-IsConsistent "cancel" "Invalid arguments for 'cancel'" "cancel_job() failed"
            cancel_job cancel-IsConsistent argv s c)
        (on_job-IsConsistent "pause" "Invalid arguments for 'pause'" "pause_job() failed" pause_job
          (λ i r. SameTables-IsConsistent r _ (pause_job-Signals i r).tables) argv s c)
        (on_job-IsConsistent "resume" "Invalid arguments for 'resume'" "resume_job() failed"
          resume_job (λ i r. SameTables-IsConsistent r _ (resume_job-Signals i r).tables) argv s c)
        (emitted-IsConsistent cmd_ok s c) (same-IsConsistent s _ refl refl refl refl c)
