-- ===== src/Owned/Commands.antt =====
-- The commands against the process groups that are signalled.
use posix_printer_spooler.Prelude.{
  refl, inl, inr, ℤ, not, none, int_eq, success, some, List, ◌∷◌, ◌==◌, ltb, String, if_elim,
  for_range-keeps, Bool-cases, Option-cases,
}
use posix_printer_spooler.Text.{Text}
use posix_printer_spooler.Platform.{Platform}
use posix_printer_spooler.Spooler.{Spooler}
use posix_printer_spooler.Printers.{add_printer_to_system, get_printer_by_name}
use posix_printer_spooler.Printers.Registry.{add_cases}
use posix_printer_spooler.Jobs.{submit_print_job}
use posix_printer_spooler.Control.{cancel_job, pause_job, resume_job}
use posix_printer_spooler.Tokens.{length}
use posix_printer_spooler.Numbers.{atoi}
use posix_printer_spooler.Commands.{
  arg, args_from, store_conversion, handle_type_command, handle_conversion_command,
  handle_printer_command, enabled, enable_printer, handle_enable_command, list_printer,
  handle_printers_command, handle_print_command, list_job, handle_jobs_command, on_job,
  handle_cancel_command, handle_pause_command, handle_resume_command, handle_help_command,
  finish_printer, finish_print, handle_user_command,
}
use posix_printer_spooler.Commands.Dispatch.{command_cases}
use posix_printer_spooler.Owned.{emit-Own, IsOwn}
use posix_printer_spooler.Owned.Jobs.{try_scheduling_jobs-IsOwn, submit-IsOwn}
use posix_printer_spooler.Owned.Control.{cancel-IsOwn, pause-IsOwn, resume-IsOwn}

module _ {P : Platform} where
  help-IsOwn : (argv : List Text) (s : Spooler P) → IsOwn s → IsOwn (handle_help_command argv s)
  unfolding handle_help_command
  help-IsOwn argv s own =
      if_elim IsOwn (not (length argv == 1)) _ _ (emit-Own _ refl (emit-Own _ refl own))
        (emit-Own _ refl (emit-Own _ refl own))

  type-IsOwn : (argv : List Text) (s : Spooler P) → IsOwn s → IsOwn (handle_type_command argv s)
  unfolding handle_type_command
  type-IsOwn argv s own = elim (Bool-cases (not (length argv == 2))) [
    | inl wrong ↦ rw wrong (emit-Own _ refl (emit-Own _ refl own))
    | inr right ↦ elim (Option-cases (P.define_type (arg argv 1) s.table).0) [
      | inl failed ↦ rw (right, failed) (emit-Own _ refl (emit-Own _ refl own))
      | inr (t, defined) ↦ rw (right, defined) (emit-Own _ refl own)
    ]
  ]

  store_conversion-IsOwn :
      (argv : List Text) (s : Spooler P) → IsOwn s → IsOwn (store_conversion argv s)
  store_conversion-IsOwn argv s own =
      elim (Option-cases
        (P.define_conversion (arg argv 1) (arg argv 2) (args_from 3 argv) s.table).0) [
          | inl failed ↦ rw (store_conversion, failed) (emit-Own _ refl (emit-Own _ refl own))
          | inr (c, defined) ↦ rw (store_conversion, defined) (emit-Own _ refl own)
        ]

  conversion-IsOwn :
      (argv : List Text) (s : Spooler P) → IsOwn s → IsOwn (handle_conversion_command argv s)
  unfolding handle_conversion_command
  conversion-IsOwn argv s own = elim (Bool-cases (ltb (length argv) 4)) [
    | inl wrong ↦ rw wrong (emit-Own _ refl (emit-Own _ refl own))
    | inr right ↦ elim (Option-cases (P.find_type (arg argv 1) s.table)) [
      | inl missing ↦ rw (right, missing) (emit-Own _ refl (emit-Own _ refl (emit-Own _ refl own)))
      | inr (from, known) ↦ elim (Option-cases (P.find_type (arg argv 2) s.table)) [
        | inl missing ↦
            rw (right, known, missing) (emit-Own _ refl (emit-Own _ refl (emit-Own _ refl own)))
        | inr (to, found) ↦ rw (right, known, found) (store_conversion-IsOwn argv s own)
      ]
    ]
  ]

  finish_printer-IsOwn :
      (name : Text) (r : ℤ × Spooler P) → IsOwn r.1 → IsOwn (finish_printer name r)
  finish_printer-IsOwn name (x, s) own = elim (Bool-cases (not (int_eq x success))) [
    | inl failed ↦ rw failed (emit-Own _ refl (emit-Own _ refl own))
    | inr done ↦ elim (Option-cases (get_printer_by_name name s)) [
      | inl missing ↦ rw (done, missing) (emit-Own _ refl own)
      | inr (p, found) ↦ rw (done, found) (emit-Own _ refl (emit-Own _ refl own))
    ]
  ]

  printer-IsOwn :
      (argv : List Text) (s : Spooler P) → IsOwn s → IsOwn (handle_printer_command argv s)
  unfolding handle_printer_command
  printer-IsOwn argv s own = elim (Bool-cases (not (length argv == 3))) [
    | inl wrong ↦ rw wrong (emit-Own _ refl (emit-Own _ refl own))
    | inr right ↦ elim (Option-cases (P.find_type (arg argv 2) s.table)) [
      | inl unknown ↦ rw (right, unknown) (emit-Own _ refl (emit-Own _ refl (emit-Own _ refl own)))
      | inr (t, known) ↦
          rw (right, known)
            (finish_printer-IsOwn (arg argv 1) (add_printer_to_system (arg argv 1) (arg argv 2) s) (
              add_cases (λ r. IsOwn r.1) (arg argv 1) (arg argv 2) s (λ _. own)
                (λ t room fresh _. emit-Own _ refl own)))
    ]
  ]

  enable-IsOwn : (argv : List Text) (s : Spooler P) → IsOwn s → IsOwn (handle_enable_command argv s)
  unfolding handle_enable_command enable_printer
  enable-IsOwn argv s own = elim (Bool-cases (not (length argv == 2))) [
    | inl wrong ↦ rw wrong (emit-Own _ refl (emit-Own _ refl own))
    | inr right ↦ elim (Option-cases (get_printer_by_name (arg argv 1) s)) [
      | inl missing ↦ rw (right, missing) (emit-Own _ refl (emit-Own _ refl own))
      | inr (p, found) ↦
          rw (right, found)
            (emit-Own _ refl
              (try_scheduling_jobs-IsOwn (enabled p s) (emit-Own _ refl (emit-Own _ refl own))))
    ]
  ]

  finish_print-IsOwn : (r : ℤ × Spooler P) → IsOwn r.1 → IsOwn (finish_print r)
  finish_print-IsOwn (x, s) own =
      if_elim IsOwn (not (int_eq x success)) _ _ (emit-Own _ refl (emit-Own _ refl own))
        (emit-Own _ refl own)

  print-IsOwn : (argv : List Text) (s : Spooler P) → IsOwn s → IsOwn (handle_print_command argv s)
  unfolding handle_print_command
  print-IsOwn argv s own = elim (Bool-cases (not (length argv == 2))) [
    | inl wrong ↦ rw wrong (emit-Own _ refl (emit-Own _ refl own))
    | inr right ↦ elim (Option-cases (P.infer_file_type (arg argv 1) s.table)) [
      | inl unknown ↦ rw (right, unknown) (emit-Own _ refl (emit-Own _ refl own))
      | inr (t, known) ↦
          rw (right, known)
            (finish_print-IsOwn (submit_print_job (some (arg argv 1)) none s)
              (submit-IsOwn (arg argv 1) s own))
    ]
  ]

  on_job-IsOwn :
      (name arity_message call_message : String) (call : ℤ → Spooler P → ℤ × Spooler P)
      → ((job_id : ℤ) (s : Spooler P) → IsOwn s → IsOwn (call job_id s).1)
      → (argv : List Text) (s : Spooler P) → IsOwn s
      → IsOwn (on_job name arity_message call_message call argv s)
  on_job-IsOwn name arity_message call_message call keep argv s own =
      let (x, r) = call (atoi (arg argv 1)) s in
      if_elim IsOwn (not (length argv == 2)) _ _ (emit-Own _ refl (emit-Own _ refl own)) (
        if_elim IsOwn (not (int_eq x success)) _ _
          (emit-Own _ refl (emit-Own _ refl (keep (atoi (arg argv 1)) s own)))
          (emit-Own _ refl (keep (atoi (arg argv 1)) s own)))

  pub handle_user_command-IsOwn :
      (cmd : Text) (args : List Text) (s : Spooler P)
      → IsOwn s
      → IsOwn (handle_user_command (cmd ∷ args) s)
  unfolding handle_cancel_command handle_pause_command handle_resume_command handle_printers_command
      handle_jobs_command
  handle_user_command-IsOwn cmd args s own =
      let argv = cmd ∷ args in
      command_cases IsOwn cmd args s (help-IsOwn argv s own) (λ _. type-IsOwn argv s own)
        (λ _. conversion-IsOwn argv s own) (printer-IsOwn argv s own) (λ _. enable-IsOwn argv s own)
        (emit-Own _ refl (emit-Own _ refl own))
        (emit-Own _ refl (
          for_range-keeps IsOwn list_printer (λ i r o. emit-Own _ refl o)
            s.number_of_registered_printers 0 s own))
        (print-IsOwn argv s own)
        (emit-Own _ refl
          (for_range-keeps IsOwn list_job (λ i r o. emit-Own _ refl o) s.job_count 0 s own))
        (λ _.
          on_job-IsOwn "cancel" "Invalid arguments for 'cancel'" "cancel_job() failed" cancel_job
            cancel-IsOwn argv s own)
        (on_job-IsOwn "pause" "Invalid arguments for 'pause'" "pause_job() failed" pause_job
          pause-IsOwn argv s own)
        (on_job-IsOwn "resume" "Invalid arguments for 'resume'" "resume_job() failed" resume_job
          resume-IsOwn argv s own)
        (emit-Own _ refl own) (emit-Own _ refl (emit-Own _ refl own))
