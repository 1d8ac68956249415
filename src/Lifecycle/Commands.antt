-- ===== src/Lifecycle/Commands.antt =====
-- The commands as moves of the job table.
use posix_printer_spooler.Prelude.{
  ℤ, String, arith, ◌≡◌, refl, inl, inr, not, none, some, List, ◌∷◌, ◌==◌, if_elim, Bool-cases,
  Option-cases, for_range-keeps, for_range-within,
}
use posix_printer_spooler.Text.{Text}
use posix_printer_spooler.Platform.{Platform}
use posix_printer_spooler.Spooler.{Spooler}
use posix_printer_spooler.Printers.{get_printer_by_name, add_printer_to_system}
use posix_printer_spooler.Printers.Registry.{add_cases}
use posix_printer_spooler.Jobs.{submit_print_job}
use posix_printer_spooler.Tokens.{length}
use posix_printer_spooler.Numbers.{atoi}
use posix_printer_spooler.Control.{cancel_job, pause_job, resume_job}
use posix_printer_spooler.Control.Signals.{SameTables, pause_job-Signals, resume_job-Signals}
use posix_printer_spooler.Commands.{
  arg, handle_printer_command, enabled, enable_printer, handle_enable_command, list_printer,
  handle_printers_command, handle_print_command, list_job, handle_jobs_command, on_job,
  handle_cancel_command, handle_pause_command, handle_resume_command, handle_user_command,
}
use posix_printer_spooler.Commands.Dispatch.{command_cases}
use posix_printer_spooler.Commands.Consistency.{
  type-SameTables, conversion-SameTables, help-SameTables, finish_printer-SameTables,
  finish_print-SameTables, finish_job-SameTables,
}
use posix_printer_spooler.Lifecycle.{
  rests, repeats, Moves, here, next, Moves-trans, one-Move, still,
}
use posix_printer_spooler.Lifecycle.Jobs.{try_scheduling_jobs-Moves, submit-Moves, cancel-Moves}

module _ {P : Platform} where
  SameTables-Moves : (s r : Spooler P) → SameTables s r → Moves s r
  SameTables-Moves s r t = one-Move s r (rests t.same_jobs t.same_spool t.quiet)

  add_printer-Moves :
      (name type : Text) (s : Spooler P) → Moves s (add_printer_to_system name type s).1
  add_printer-Moves name type s =
      add_cases (λ r. Moves s r.1) name type s (λ _. here)
        (λ t _ _ _. still s _ refl refl refl refl)

  printer-Moves : (argv : List Text) (s : Spooler P) → Moves s (handle_printer_command argv s)
  unfolding handle_printer_command
  printer-Moves argv s = elim (Bool-cases (not (length argv == 3))) [
    | inl wrong ↦ rw wrong (still s _ refl refl refl refl)
    | inr right ↦ elim (Option-cases (P.find_type (arg argv 2) s.table)) [
      | inl unknown ↦ rw (right, unknown) (still s _ refl refl refl refl)
      | inr (t, known) ↦
          rw (right, known)
            (Moves-trans (add_printer-Moves (arg argv 1) (arg argv 2) s) (
              SameTables-Moves _ _ (
                finish_printer-SameTables (arg argv 1)
                  (add_printer_to_system (arg argv 1) (arg argv 2) s))))
    ]
  ]

  enable-Moves : (argv : List Text) (s : Spooler P) → Moves s (handle_enable_command argv s)
  unfolding handle_enable_command enable_printer
  enable-Moves argv s = elim (Bool-cases (not (length argv == 2))) [
    | inl wrong ↦ rw wrong (still s _ refl refl refl refl)
    | inr right ↦ elim (Option-cases (get_printer_by_name (arg argv 1) s)) [
      | inl missing ↦ rw (right, missing) (still s _ refl refl refl refl)
      | inr (p, found) ↦
          rw (right, found)
            (Moves-trans (still s (enabled p s) refl refl refl refl) (
              next (try_scheduling_jobs-Moves (enabled p s))
                (rests refl refl (record { same_history = refl; stays_on = λ up. up }))))
    ]
  ]

  print-Moves : (argv : List Text) (s : Spooler P) → Moves s (handle_print_command argv s)
  unfolding handle_print_command
  print-Moves argv s = elim (Bool-cases (not (length argv == 2))) [
    | inl wrong ↦ rw wrong (still s _ refl refl refl refl)
    | inr right ↦ elim (Option-cases (P.infer_file_type (arg argv 1) s.table)) [
      | inl unknown ↦ rw (right, unknown) (still s _ refl refl refl refl)
      | inr (t, known) ↦
          rw (right, known)
            (Moves-trans (submit-Moves (arg argv 1) s) (
              SameTables-Moves _ _
                (finish_print-SameTables (submit_print_job (some (arg argv 1)) none s))))
    ]
  ]

  on_job-Moves :
      (name arity_message call_message : String) (call : ℤ → Spooler P → ℤ × Spooler P)
      → ((job_id : ℤ) (s : Spooler P) → Moves s (call job_id s).1)
      → (argv : List Text) (s : Spooler P)
      → Moves s (on_job name arity_message call_message call argv s)
  on_job-Moves name arity_message call_message call moves argv s =
      if_elim (Moves s) (not (length argv == 2)) _ _ (still s _ refl refl refl refl) (
        Moves-trans (moves (atoi (arg argv 1)) s) (
          SameTables-Moves _ _ (
            finish_job-SameTables name call_message (atoi (arg argv 1))
              (call (atoi (arg argv 1)) s))))

  jobs-Moves : (s : Spooler P) → Moves s (handle_jobs_command s)
  unfolding handle_jobs_command
  jobs-Moves s =
      let listed =
        for_range-within (λ _ (r : Spooler P). (r.job_count ≡ s.job_count) × Moves s r) list_job
          s.job_count
          (λ i r below (same, m). (
            same,
            next m (
                repeats i (omega (arith, same)) refl refl
                  (record { more_history = refl; same_initialized = refl })),
          ))
          s.job_count 0 s (omega arith) (refl, here) in
      Moves-trans listed.1 (still _ _ refl refl refl refl)

  -- Whatever a command is, and whatever comes of it, its effect on the job table is a sequence of
  -- moves.
  pub handle_user_command-Moves :
      (cmd : Text) (args : List Text) (s : Spooler P) → Moves s (handle_user_command (cmd ∷ args) s)
  unfolding handle_cancel_command handle_pause_command handle_resume_command handle_printers_command
  handle_user_command-Moves cmd args s =
      let argv = cmd ∷ args in
      command_cases (Moves s) cmd args s (SameTables-Moves s _ (help-SameTables argv s))
        (λ _. SameTables-Moves s _ (type-SameTables argv s))
        (λ _. SameTables-Moves s _ (conversion-SameTables argv s)) (printer-Moves argv s)
        (λ _. enable-Moves argv s) (still s _ refl refl refl refl)
        (next
          (for_range-keeps (Moves s) list_printer
            (λ i r m.
              next m (rests refl refl (record { same_history = refl; stays_on = λ up. up })))
            s.number_of_registered_printers 0 s here)
          (rests refl refl (record { same_history = refl; stays_on = λ up. up })))
        (print-Moves argv s) (jobs-Moves s)
        (λ _.
          on_job-Moves "cancel" "Invalid arguments for 'cancel'" "cancel_job() failed" cancel_job
            cancel-Moves argv s)
        (on_job-Moves "pause" "Invalid arguments for 'pause'" "pause_job() failed" pause_job
          (λ i r. SameTables-Moves r _ (pause_job-Signals i r).tables) argv s)
        (on_job-Moves "resume" "Invalid arguments for 'resume'" "resume_job() failed" resume_job
          (λ i r. SameTables-Moves r _ (resume_job-Signals i r).tables) argv s)
        (still s _ refl refl refl refl) (still s _ refl refl refl refl)
