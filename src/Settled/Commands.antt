-- ===== src/Settled/Commands.antt =====
-- The commands against jobs that wait.
use posix_printer_spooler.Prelude.{
  ◌≡◌, refl, inl, inr, ℤ, is_negative, true, false, not, none, some, List, [], ◌∷◌, ◌||◌, arith,
  ◌==◌, String, if_elim, for_range-keeps, Bool-cases, Option-cases, ℕ_discrete,
}
use posix_printer_spooler.Text.{Text, text, text_eq}
use posix_printer_spooler.Platform.{FileType, Platform}
use posix_printer_spooler.Spooler.{Spooler, Effect, emit}
use posix_printer_spooler.Printers.{add_printer_to_system, register_printer, get_printer_by_name}
use posix_printer_spooler.Printers.Registry.{add_cases}
use posix_printer_spooler.Jobs.{submit_print_job, queue_job, register_job, enqueue_job}
use posix_printer_spooler.Jobs.Progress.{try_scheduling_jobs-IsSettled}
use posix_printer_spooler.Jobs.Submission.{submit_cases}
use posix_printer_spooler.Control.{cancel_job, cancel_slot, pause_job, resume_job}
use posix_printer_spooler.Control.Signals.{SameTables, pause_job-Signals, resume_job-Signals}
use posix_printer_spooler.Tokens.{length}
use posix_printer_spooler.Numbers.{atoi}
use posix_printer_spooler.Commands.{
  arg, handle_printer_command, enabled, enable_printer, handle_enable_command, list_printer,
  handle_printers_command, handle_print_command, list_job, handle_jobs_command, on_job,
  handle_cancel_command, handle_pause_command, handle_resume_command, handle_help_command,
  handle_user_command,
}
use posix_printer_spooler.Commands.Dispatch.{command_cases}
use posix_printer_spooler.Commands.Consistency.{
  type-SameTables, conversion-SameTables, help-SameTables, finish_printer-SameTables,
  finish_print-SameTables, finish_job-SameTables,
}
use posix_printer_spooler.Settled.{AreSettled, NoneWaiting, NoneWaiting-AreSettled, same-AreSettled}

module _ {P : Platform} where
  SameTables-AreSettled :
      (s r : Spooler P) → SameTables s r → r.table ≡ s.table → AreSettled s → AreSettled r
  SameTables-AreSettled s r same table settled =
      same-AreSettled s r
        (record {
          same_table = table;
          same_printers = same.same_printers;
          same_registry = same.same_registry;
        })
        same.same_jobs same.same_spool settled

  SameTables-NoneWaiting : (s r : Spooler P) → SameTables s r → NoneWaiting s → NoneWaiting r
  SameTables-NoneWaiting s r same none_waits i h =
      rw same.same_spool (none_waits i (omega (arith, h, same.same_jobs)))

  -- An event changes nothing.
  pub emit-AreSettled : (e : Effect) (s : Spooler P) → AreSettled s → AreSettled (emit e s)
  emit-AreSettled e s settled =
      same-AreSettled s (emit e s)
        (record { same_table = refl; same_printers = refl; same_registry = refl }) refl refl settled

  help-AreSettled :
      (argv : List Text) (s : Spooler P) → AreSettled s → AreSettled (handle_help_command argv s)
  unfolding handle_help_command
  help-AreSettled argv s = SameTables-AreSettled s _ (help-SameTables argv s) (ground arith)

  -- A new printer is DISABLED.
  register-AreSettled :
      (name : Text) (t : FileType) (s : Spooler P)
      → AreSettled s
      → AreSettled (register_printer name t s)
  register-AreSettled name t s settled i h t' waits known p fits =
      elim (ℕ_discrete p s.number_of_registered_printers) [
        | yes last ↦ ground (arith, last, fits.is_free)
        | no ne ↦
            let same : (register_printer name t s).printer_registry p ≡ s.printer_registry p =
              ground (arith, ne) in
            settled i h t' waits known p (record {
              registered = omega (arith, fits.registered, ne);
              is_free = rw same at fits.is_free;
              reachable = rw same at fits.reachable;
            })
      ]

  printer-AreSettled :
      (argv : List Text) (s : Spooler P) → AreSettled s → AreSettled (handle_printer_command argv s)
  unfolding handle_printer_command
  printer-AreSettled argv s settled = elim (Bool-cases (not (length argv == 3))) [
    | inl wrong ↦ rw wrong (emit-AreSettled _ _ (emit-AreSettled _ s settled))
    | inr right ↦ elim (Option-cases (P.find_type (arg argv 2) s.table)) [
      | inl unknown ↦
          rw (right, unknown)
            (emit-AreSettled _ _ (emit-AreSettled _ _ (emit-AreSettled _ s settled)))
      | inr (t, known) ↦
          let added = add_printer_to_system (arg argv 1) (arg argv 2) s in
          rw (right, known)
            (SameTables-AreSettled added.1 _ (finish_printer-SameTables (arg argv 1) added)
              (ground arith)
              (add_cases (λ r. AreSettled r.1) (arg argv 1) (arg argv 2) s (λ _. settled)
                (λ t room fresh found. register-AreSettled (arg argv 1) t s settled)))
    ]
  ]

  -- `cancel` makes no job wait.
  cancel-NoneWaiting :
      (job_id : ℤ) (s : Spooler P) → NoneWaiting s → NoneWaiting (cancel_job job_id s).1
  unfolding cancel_job cancel_slot
  cancel-NoneWaiting job_id s none_waits i = ground (arith, none_waits i)

  pause-AreSettled : (job_id : ℤ) (s : Spooler P) → AreSettled s → AreSettled (pause_job job_id s).1
  unfolding pause_job
  pause-AreSettled job_id s =
      SameTables-AreSettled s _ (pause_job-Signals job_id s).tables (ground arith)

  resume-AreSettled :
      (job_id : ℤ) (s : Spooler P) → AreSettled s → AreSettled (resume_job job_id s).1
  unfolding resume_job
  resume-AreSettled job_id s =
      SameTables-AreSettled s _ (resume_job-Signals job_id s).tables (ground arith)

  on_job-AreSettled :
      (name arity_message call_message : String) (call : ℤ → Spooler P → ℤ × Spooler P)
      → (argv : List Text) (s : Spooler P) → AreSettled s
      → AreSettled (call (atoi (arg argv 1)) s).1
      → AreSettled (on_job name arity_message call_message call argv s)
  on_job-AreSettled name arity_message call_message call argv s before after =
      let r = call (atoi (arg argv 1)) s in
      if_elim AreSettled (not (length argv == 2)) _ _
        (emit-AreSettled _ _ (emit-AreSettled _ s before))
        (SameTables-AreSettled r.1 _ (finish_job-SameTables name call_message (atoi (arg argv 1)) r)
          (ground arith) after)

  -- A `type`, a `conversion` or a `cancel` comes when no job waits.
  abbrev pub Timely : List Text → Spooler P → Type 0
  Timely [] s = Unit
  Timely (cmd ∷ args) s =
      (text_eq cmd (text "type") || text_eq cmd (text "conversion") || text_eq cmd (text "cancel"))
        ≡ true
      → NoneWaiting s

  module _ (forks : (w : P.World) → is_negative (P.fork w).0 ≡ false) where
    enable-AreSettled :
        (argv : List Text) (s : Spooler P)
        → AreSettled s
        → AreSettled (handle_enable_command argv s)
    unfolding handle_enable_command enable_printer
    enable-AreSettled argv s settled = elim (Bool-cases (not (length argv == 2))) [
      | inl wrong ↦ rw wrong (emit-AreSettled _ _ (emit-AreSettled _ s settled))
      | inr right ↦ elim (Option-cases (get_printer_by_name (arg argv 1) s)) [
        | inl missing ↦ rw (right, missing) (emit-AreSettled _ _ (emit-AreSettled _ s settled))
        | inr (p, found) ↦
            rw (right, found)
              (emit-AreSettled _ _ (try_scheduling_jobs-IsSettled forks (enabled p s)))
      ]
    ]

    submit-AreSettled :
        (f : Text) (s : Spooler P) → AreSettled s → AreSettled (submit_print_job (some f) none s).1
    unfolding queue_job
    submit-AreSettled f s settled =
        submit_cases (λ r. AreSettled r.1) f none s (λ _. settled)
          (λ t room known e. emit-AreSettled _ _ (
            try_scheduling_jobs-IsSettled forks
              (enqueue_job s.job_count (register_job f t none s))))
          (λ t p room known e accepted. absurd (ground (arith, e)))

    print-AreSettled :
        (argv : List Text) (s : Spooler P) → AreSettled s → AreSettled (handle_print_command argv s)
    unfolding handle_print_command
    print-AreSettled argv s settled = elim (Bool-cases (not (length argv == 2))) [
      | inl wrong ↦ rw wrong (emit-AreSettled _ _ (emit-AreSettled _ s settled))
      | inr right ↦ elim (Option-cases (P.infer_file_type (arg argv 1) s.table)) [
        | inl unknown ↦ rw (right, unknown) (emit-AreSettled _ _ (emit-AreSettled _ s settled))
        | inr (t, known) ↦
            let r = submit_print_job (some (arg argv 1)) none s in
            rw (right, known)
              (SameTables-AreSettled r.1 _ (finish_print-SameTables r) (ground arith)
                (submit-AreSettled (arg argv 1) s settled))
      ]
    ]

    pub handle_user_command-AreSettled :
        (cmd : Text) (args : List Text) (s : Spooler P)
        → Timely (cmd ∷ args) s
        → AreSettled s
        → AreSettled (handle_user_command (cmd ∷ args) s)
    unfolding handle_cancel_command handle_pause_command handle_resume_command
        handle_printers_command handle_jobs_command
    handle_user_command-AreSettled cmd args s timely settled =
        let argv = cmd ∷ args in
        command_cases AreSettled cmd args s (help-AreSettled argv s settled)
          (λ is_type. NoneWaiting-AreSettled _ (
            SameTables-NoneWaiting s _ (type-SameTables argv s) (timely (ground (arith, is_type)))))
          (λ is_conversion. NoneWaiting-AreSettled _ (
            SameTables-NoneWaiting s _ (conversion-SameTables argv s)
              (timely (ground (arith, is_conversion)))))
          (printer-AreSettled argv s settled) (λ _. enable-AreSettled argv s settled)
          (emit-AreSettled _ _ (emit-AreSettled _ s settled))
          (emit-AreSettled _ _ (
            for_range-keeps AreSettled list_printer (λ i r. emit-AreSettled _ r)
              s.number_of_registered_printers 0 s settled))
          (print-AreSettled argv s settled)
          (emit-AreSettled _ _ (
            for_range-keeps AreSettled list_job (λ i r. emit-AreSettled _ r) s.job_count 0 s
              settled))
          (λ is_cancel.
            on_job-AreSettled "cancel" "Invalid arguments for 'cancel'" "cancel_job() failed"
              cancel_job argv s settled
              (NoneWaiting-AreSettled _
                (cancel-NoneWaiting (atoi (arg argv 1)) s (timely (ground (arith, is_cancel))))))
          (on_job-AreSettled "pause" "Invalid arguments for 'pause'" "pause_job() failed" pause_job
            argv s settled (pause-AreSettled (atoi (arg argv 1)) s settled))
          (on_job-AreSettled "resume" "Invalid arguments for 'resume'" "resume_job() failed"
            resume_job argv s settled (resume-AreSettled (atoi (arg argv 1)) s settled))
          (emit-AreSettled _ s settled) (emit-AreSettled _ _ (emit-AreSettled _ s settled))
