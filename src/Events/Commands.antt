-- ===== src/Events/Commands.antt =====
-- The commands against the events about printers.
use posix_printer_spooler.Prelude.{
  ℤ, String, ◌≡◌, inl, inr, refl, sym, ap, ◌∙◌, not, none, some, List, ◌∷◌, arith, ◌==◌, if_elim,
  Bool-cases, Option-cases, for_range-keeps, ℕ_discrete,
}
use posix_printer_spooler.Text.{Text, text_eq, text_eq_refl, text_eq→eq}
use posix_printer_spooler.Platform.{FileType, Platform}
use posix_printer_spooler.Spooler.{Spooler, Printer, idle, cmd_ok, deref, printer_name}
use posix_printer_spooler.Printers.{get_printer_by_name, add_printer_to_system, register_printer}
use posix_printer_spooler.Printers.Registry.{
  IsRegistry, add_cases, register-IsRegistry, get_printer_lt,
}
use posix_printer_spooler.Jobs.{submit_print_job}
use posix_printer_spooler.Tokens.{length}
use posix_printer_spooler.Numbers.{atoi}
use posix_printer_spooler.Control.{cancel_job, pause_job, resume_job}
use posix_printer_spooler.Control.Signals.{pause_job-Signals, resume_job-Signals}
use posix_printer_spooler.Commands.{
  arg, handle_printer_command, enabled, enable_printer, handle_enable_command, list_printer,
  handle_printers_command, handle_print_command, list_job, handle_jobs_command, on_job,
  handle_cancel_command, handle_pause_command, handle_resume_command, handle_user_command,
}
use posix_printer_spooler.Commands.Dispatch.{command_cases}
use posix_printer_spooler.Events.{announced, IsAnnounced, Tells-IsAnnounced}
use posix_printer_spooler.Events.Jobs.{try_scheduling_jobs-IsAnnounced, submit-IsAnnounced}
use posix_printer_spooler.Events.Cancel.{cancel-IsAnnounced}
use posix_printer_spooler.Events.Silence.{
  Muted-IsAnnounced, outcome-IsAnnounced, muted, type-Muted, conversion-Muted, help-Muted,
  finish_printer-Muted, finish_print-Muted, finish_job-Muted,
}

module _ {P : Platform} where
  register-IsAnnounced :
      (name : Text) (t : FileType) (s : Spooler P)
      → IsRegistry (register_printer name t s)
      → IsAnnounced s
      → IsAnnounced (register_printer name t s)
  unfolding announced
  register-IsAnnounced name t s registry a = record {
    registry = registry;
    targets = λ k p h e. omega (arith, a.targets k p h e);
    shown = λ i h. elim (ℕ_discrete i s.number_of_registered_printers) [
      | yes last ↦ ground (arith, last, text_eq_refl name)
      | no ne ↦ elim (Bool-cases (text_eq name (printer_name i (register_printer name t s)))) [
        | inl clash ↦ absurd (
            ne (
              registry.unique i s.number_of_registered_printers h (omega arith) (
                ground
                  (arith, text_eq→eq name (printer_name i (register_printer name t s)) clash))))
        | inr differ ↦
            let same : (register_printer name t s).printer_registry i ≡ s.printer_registry i =
              ground (arith, ne) in
            rw differ (
              ap (λ (q : Printer). announced (deref q.name) s.trace) same
              ∙ a.shown i (omega arith)
              ∙ ap (λ (q : Printer). some q.status) (sym same))
      ]
    ];
  }

  add_printer-IsAnnounced :
      (name type : Text) (s : Spooler P)
      → IsAnnounced s
      → IsAnnounced (add_printer_to_system name type s).1
  add_printer-IsAnnounced name type s a =
      add_cases (λ r. IsAnnounced r.1) name type s (λ _. a)
        (λ t room fresh _.
          register-IsAnnounced name t s (register-IsRegistry name t s room fresh a.registry) a)

  printer-IsAnnounced :
      (argv : List Text) (s : Spooler P)
      → IsAnnounced s
      → IsAnnounced (handle_printer_command argv s)
  unfolding handle_printer_command announced
  printer-IsAnnounced argv s a = elim (Bool-cases (not (length argv == 3))) [
    | inl wrong ↦ rw wrong (muted s _ refl refl refl refl (λ name. refl) a)
    | inr right ↦ elim (Option-cases (P.find_type (arg argv 2) s.table)) [
      | inl unknown ↦ rw (right, unknown) (muted s _ refl refl refl refl (λ name. refl) a)
      | inr (t, known) ↦
          rw (right, known)
            (Muted-IsAnnounced _ _
              (finish_printer-Muted (arg argv 1)
                (add_printer_to_system (arg argv 1) (arg argv 2) s))
              (add_printer-IsAnnounced (arg argv 1) (arg argv 2) s a))
    ]
  ]

  enable-IsAnnounced :
      (argv : List Text) (s : Spooler P)
      → IsAnnounced s
      → IsAnnounced (handle_enable_command argv s)
  unfolding handle_enable_command enable_printer announced
  enable-IsAnnounced argv s a = elim (Bool-cases (not (length argv == 2))) [
    | inl wrong ↦ rw wrong (muted s _ refl refl refl refl (λ name. refl) a)
    | inr right ↦ elim (Option-cases (get_printer_by_name (arg argv 1) s)) [
      | inl missing ↦ rw (right, missing) (muted s _ refl refl refl refl (λ name. refl) a)
      | inr (p, found) ↦
          rw (right, found)
            (outcome-IsAnnounced cmd_ok _ (λ name. refl)
              (try_scheduling_jobs-IsAnnounced (enabled p s) (
                Tells-IsAnnounced p idle s (enabled p s) (get_printer_lt (arg argv 1) s p found)
                  (record {
                    same_printers = refl;
                    printer = ground arith;
                    others = λ q ne. ground (arith, ne);
                    view = λ name. ground arith;
                  })
                  (λ k q h e. a.targets k q h e) a)))
    ]
  ]

  print-IsAnnounced :
      (argv : List Text) (s : Spooler P) → IsAnnounced s → IsAnnounced (handle_print_command argv s)
  unfolding handle_print_command announced
  print-IsAnnounced argv s a = elim (Bool-cases (not (length argv == 2))) [
    | inl wrong ↦ rw wrong (muted s _ refl refl refl refl (λ name. refl) a)
    | inr right ↦ elim (Option-cases (P.infer_file_type (arg argv 1) s.table)) [
      | inl unknown ↦ rw (right, unknown) (muted s _ refl refl refl refl (λ name. refl) a)
      | inr (t, known) ↦
          rw (right, known)
            (Muted-IsAnnounced _ _
              (finish_print-Muted (submit_print_job (some (arg argv 1)) none s))
              (submit-IsAnnounced (arg argv 1) s a))
    ]
  ]

  on_job-IsAnnounced :
      (name arity_message call_message : String) (call : ℤ → Spooler P → ℤ × Spooler P)
      → ((job_id : ℤ) (s : Spooler P) → IsAnnounced s → IsAnnounced (call job_id s).1)
      → (argv : List Text) (s : Spooler P) → IsAnnounced s
      → IsAnnounced (on_job name arity_message call_message call argv s)
  unfolding announced
  on_job-IsAnnounced name arity_message call_message call keep argv s a =
      if_elim IsAnnounced (not (length argv == 2)) _ _
        (muted s _ refl refl refl refl (λ other. refl) a)
        (Muted-IsAnnounced _ _
          (finish_job-Muted name call_message (atoi (arg argv 1)) (call (atoi (arg argv 1)) s))
          (keep (atoi (arg argv 1)) s a))

  pause-IsAnnounced :
      (job_id : ℤ) (s : Spooler P) → IsAnnounced s → IsAnnounced (pause_job job_id s).1
  unfolding pause_job announced
  pause-IsAnnounced job_id s a =
      let same = (pause_job-Signals job_id s).tables in
      muted s _ same.same_printers same.same_registry same.same_jobs same.same_spool
        (λ name. ground arith) a

  resume-IsAnnounced :
      (job_id : ℤ) (s : Spooler P) → IsAnnounced s → IsAnnounced (resume_job job_id s).1
  unfolding resume_job announced
  resume-IsAnnounced job_id s a =
      let same = (resume_job-Signals job_id s).tables in
      muted s _ same.same_printers same.same_registry same.same_jobs same.same_spool
        (λ name. ground arith) a

  pub handle_user_command-IsAnnounced :
      (cmd : Text) (args : List Text) (s : Spooler P)
      → IsAnnounced s
      → IsAnnounced (handle_user_command (cmd ∷ args) s)
  unfolding handle_cancel_command handle_pause_command handle_resume_command handle_printers_command
      handle_jobs_command announced
  handle_user_command-IsAnnounced cmd args s a =
      let argv = cmd ∷ args in
      command_cases IsAnnounced cmd args s (Muted-IsAnnounced s _ (help-Muted argv s) a)
        (λ _. Muted-IsAnnounced s _ (type-Muted argv s) a)
        (λ _. Muted-IsAnnounced s _ (conversion-Muted argv s) a) (printer-IsAnnounced argv s a)
        (λ _. enable-IsAnnounced argv s a) (muted s _ refl refl refl refl (λ name. refl) a)
        (outcome-IsAnnounced cmd_ok _ (λ name. refl)
          (for_range-keeps IsAnnounced list_printer (λ i r. outcome-IsAnnounced _ r (λ name. refl))
            s.number_of_registered_printers 0 s a))
        (print-IsAnnounced argv s a)
        (outcome-IsAnnounced cmd_ok _ (λ name. refl)
          (for_range-keeps IsAnnounced list_job (λ i r. outcome-IsAnnounced _ r (λ name. refl))
            s.job_count 0 s a))
        (λ _.
          on_job-IsAnnounced "cancel" "Invalid arguments for 'cancel'" "cancel_job() failed"
            cancel_job cancel-IsAnnounced argv s a)
        (on_job-IsAnnounced "pause" "Invalid arguments for 'pause'" "pause_job() failed" pause_job
          pause-IsAnnounced argv s a)
        (on_job-IsAnnounced "resume" "Invalid arguments for 'resume'" "resume_job() failed"
          resume_job resume-IsAnnounced argv s a)
        (outcome-IsAnnounced cmd_ok s (λ name. refl) a)
        (muted s _ refl refl refl refl (λ name. refl) a)
