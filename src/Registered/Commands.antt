-- ===== src/Registered/Commands.antt =====
-- The commands: what `printer` registers, and that no other command changes a name or a type.
use posix_printer_spooler.Prelude.{
  ◌≡◌, inl, inr, ℤ, false, not, Option, none, some, List, [], ◌∷◌, arith, ◌==◌, String, if_elim,
  for_range-keeps, Bool-cases, Option-cases,
}
use posix_printer_spooler.Text.{Text}
use posix_printer_spooler.Platform.{Platform, FileType}
use posix_printer_spooler.Spooler.{Spooler, idle}
use posix_printer_spooler.Printers.{add_printer_to_system, register_printer, get_printer_by_name}
use posix_printer_spooler.Printers.Registry.{add_cases}
use posix_printer_spooler.Jobs.{submit_print_job}
use posix_printer_spooler.Control.{cancel_job, pause_job, resume_job}
use posix_printer_spooler.Tokens.{length}
use posix_printer_spooler.Tokens.Layout.{IsWord, AllWords}
use posix_printer_spooler.Numbers.{atoi}
use posix_printer_spooler.Commands.{
  arg, handle_type_command, handle_conversion_command, handle_help_command, handle_printer_command,
  enabled, enable_printer, handle_enable_command, list_printer, handle_printers_command,
  handle_print_command, list_job, handle_jobs_command, on_job, handle_cancel_command,
  handle_pause_command, handle_resume_command, finish_printer, finish_print, finish_job,
  handle_user_command,
}
use posix_printer_spooler.Commands.Dispatch.{command_cases}
use posix_printer_spooler.Events.Silence.{
  Muted, type-Muted, conversion-Muted, help-Muted, finish_printer-Muted, finish_print-Muted,
  finish_job-Muted,
}
use posix_printer_spooler.Registered.{
  AreRegistered, unmoved-AreRegistered, status-AreRegistered, try_scheduling_jobs-AreRegistered,
  submit-AreRegistered, cancel-AreRegistered, pause-AreRegistered, resume-AreRegistered,
}

-- The arguments of a line of words are words.
arguments-IsWord :
    (argv : List Text)
    → not (length argv == 3) ≡ false
    → AllWords argv
    → IsWord (arg argv 1) × IsWord (arg argv 2)
arguments-IsWord [] right words = absurd (ground (arith, right))
arguments-IsWord (a ∷ []) right words = absurd (ground (arith, right))
arguments-IsWord (a ∷ b ∷ []) right words = absurd (ground (arith, right))
arguments-IsWord (a ∷ b ∷ c ∷ rest) right (ha, (hb, (hc, more))) = (hb, hc)

-- `R` holds of the printers that `printer` registers, their names and types being words.
abbrev pub Enrols : Platform → (Option Text → Option FileType → Type 0) → Type 0
Enrols P R =
    (name type : Text) (t : FileType) (table : P.Table)
    → IsWord name
    → IsWord type
    → P.find_type type table ≡ some t
    → R (some name) (some t)

module _ {P : Platform} (R : Option Text → Option FileType → Type 0) where
  Muted-AreRegistered : (s r : Spooler P) → Muted s r → AreRegistered R s → AreRegistered R r
  Muted-AreRegistered s r muted =
      unmoved-AreRegistered R s r muted.silent.same_printers muted.silent.same_registry

  register-AreRegistered :
      (name : Text) (t : FileType) (s : Spooler P)
      → R (some name) (some t)
      → AreRegistered R s
      → AreRegistered R (register_printer name t s)
  register-AreRegistered name t s new all k h =
      elim (Bool-cases (k == s.number_of_registered_printers)) [
        | inl last ↦ rw last new
        | inr before ↦ rw before (all k (ground (arith, before, h)))
      ]

  printer-AreRegistered :
      (argv : List Text) (s : Spooler P)
      → Enrols P R
      → AllWords argv
      → AreRegistered R s
      → AreRegistered R (handle_printer_command argv s)
  unfolding handle_printer_command
  printer-AreRegistered argv s enrols words all = elim (Bool-cases (not (length argv == 3))) [
    | inl wrong ↦ rw wrong all
    | inr right ↦ elim (Option-cases (P.find_type (arg argv 2) s.table)) [
      | inl unknown ↦ rw (right, unknown) all
      | inr (t, known) ↦
          let (name, type) = arguments-IsWord argv right words in
          let added = add_printer_to_system (arg argv 1) (arg argv 2) s in
          rw (right, known)
            (Muted-AreRegistered added.1 (finish_printer (arg argv 1) added)
              (finish_printer-Muted (arg argv 1) added)
              (add_cases (λ r. AreRegistered R r.1) (arg argv 1) (arg argv 2) s (λ _. all)
                (λ t room fresh found.
                  register-AreRegistered (arg argv 1) t s
                    (enrols (arg argv 1) (arg argv 2) t s.table name type found) all)))
    ]
  ]

  enable-AreRegistered :
      (argv : List Text) (s : Spooler P)
      → AreRegistered R s
      → AreRegistered R (handle_enable_command argv s)
  unfolding handle_enable_command enable_printer
  enable-AreRegistered argv s all = elim (Bool-cases (not (length argv == 2))) [
    | inl wrong ↦ rw wrong all
    | inr right ↦ elim (Option-cases (get_printer_by_name (arg argv 1) s)) [
      | inl missing ↦ rw (right, missing) all
      | inr (p, found) ↦
          rw (right, found)
            (try_scheduling_jobs-AreRegistered R (enabled p s)
              (status-AreRegistered R p idle s all))
    ]
  ]

  print-AreRegistered :
      (argv : List Text) (s : Spooler P)
      → AreRegistered R s
      → AreRegistered R (handle_print_command argv s)
  unfolding handle_print_command
  print-AreRegistered argv s all = elim (Bool-cases (not (length argv == 2))) [
    | inl wrong ↦ rw wrong all
    | inr right ↦ elim (Option-cases (P.infer_file_type (arg argv 1) s.table)) [
      | inl unknown ↦ rw (right, unknown) all
      | inr (t, known) ↦
          let submitted = submit_print_job (some (arg argv 1)) none s in
          rw (right, known)
            (Muted-AreRegistered submitted.1 (finish_print submitted) (finish_print-Muted submitted)
              (submit-AreRegistered R (arg argv 1) s all))
    ]
  ]

  on_job-AreRegistered :
      (name arity_message call_message : String) (call : ℤ → Spooler P → ℤ × Spooler P)
      → ((job_id : ℤ) (s : Spooler P) → AreRegistered R s → AreRegistered R (call job_id s).1)
      → (argv : List Text) (s : Spooler P) → AreRegistered R s
      → AreRegistered R (on_job name arity_message call_message call argv s)
  on_job-AreRegistered name arity_message call_message call keep argv s all =
      let job_id = atoi (arg argv 1) in
      let called = call job_id s in
      if_elim (AreRegistered R) (not (length argv == 2)) _
        (finish_job name call_message job_id called) all
        (Muted-AreRegistered called.1 (finish_job name call_message job_id called)
          (finish_job-Muted name call_message job_id called) (keep job_id s all))

  pub handle_user_command-AreRegistered :
      Enrols P R
      → (cmd : Text) (args : List Text) (s : Spooler P) → AllWords (cmd ∷ args)
      → AreRegistered R s
      → AreRegistered R (handle_user_command (cmd ∷ args) s)
  unfolding handle_cancel_command handle_pause_command handle_resume_command handle_printers_command
      handle_jobs_command
  handle_user_command-AreRegistered enrols cmd args s words all =
      let argv = cmd ∷ args in
      command_cases (AreRegistered R) cmd args s
        (Muted-AreRegistered s (handle_help_command argv s) (help-Muted argv s) all)
        (λ _. Muted-AreRegistered s (handle_type_command argv s) (type-Muted argv s) all)
        (λ _.
          Muted-AreRegistered s (handle_conversion_command argv s) (conversion-Muted argv s) all)
        (printer-AreRegistered argv s enrols words all) (λ _. enable-AreRegistered argv s all) all
        (for_range-keeps (AreRegistered R) list_printer (λ i r a. a) s.number_of_registered_printers
          0 s all)
        (print-AreRegistered argv s all)
        (for_range-keeps (AreRegistered R) list_job (λ i r a. a) s.job_count 0 s all)
        (λ _.
          on_job-AreRegistered "cancel" "Invalid arguments for 'cancel'" "cancel_job() failed"
            cancel_job (cancel-AreRegistered R) argv s all)
        (on_job-AreRegistered "pause" "Invalid arguments for 'pause'" "pause_job() failed" pause_job
          (pause-AreRegistered R) argv s all)
        (on_job-AreRegistered "resume" "Invalid arguments for 'resume'" "resume_job() failed"
          resume_job (resume-AreRegistered R) argv s all)
        all all
