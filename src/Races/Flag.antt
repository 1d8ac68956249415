-- ===== src/Races/Flag.antt =====
-- The flag of the SIGCHLD handler: only handle_child_status_updates clears it.
use posix_printer_spooler.Prelude.{
  ℕ, suc, zero, ℤ, ◌-◌, ◌≡◌, true, Option, none, some, List, arith, if_elim, for_range-keeps, ltb,
  inl, inr, Bool-cases, Option-cases,
}
use posix_printer_spooler.Text.{text_eq}
use posix_printer_spooler.Platform.{Platform, WaitStatus, FileType, Conversion}
use posix_printer_spooler.Spooler.{Spooler, printer_type}
use posix_printer_spooler.Jobs.{
  is_created, job_type, set_target, start_conversion_pipeline, mark_running, launch, start_on,
  schedule_job, try_scheduling_jobs,
}
use posix_printer_spooler.Printers.{select_compatible_printer}
use posix_printer_spooler.Expiry.{
  shift_slot, compact, remove_job, is_expired, expiry_round, expiry_loop,
  delete_expired_jobs_if_needed,
}
use posix_printer_spooler.Children.{update_job, match_job, child_report}

module _ {P : Platform} where
  -- SIGCHLD was caught, and no call of handle_child_status_updates came since.
  abbrev pub IsRaised : Spooler P → Type 0
  IsRaised s = s.child_signal_received ≡ true

  launch-IsRaised :
      (i p : ℕ) (path : Option (List Conversion)) (s : Spooler P)
      → IsRaised s
      → IsRaised (launch i p path s)
  unfolding launch start_conversion_pipeline mark_running
  launch-IsRaised i p path s raised = ground (arith, raised)

  start_on-IsRaised :
      (i : ℕ) (t : FileType) (p : ℕ) (s : Spooler P) → IsRaised s → IsRaised (start_on i t p s)
  unfolding start_on
  start_on-IsRaised i t p s raised = elim (Bool-cases (text_eq t.name (printer_type p s))) [
    | inl direct ↦ rw direct (launch-IsRaised i p none (set_target i (some p) s) raised)
    | inr other ↦ elim (Option-cases (P.find_conversion_path t.name (printer_type p s) s.table)) [
      | inl missing ↦ rw (other, missing) raised
      | inr (path, found) ↦
          rw (other, found) (launch-IsRaised i p (some path) (set_target i (some p) s) raised)
    ]
  ]

  schedule_job-IsRaised : (i : ℕ) (s : Spooler P) → IsRaised s → IsRaised (schedule_job i s)
  unfolding schedule_job
  schedule_job-IsRaised i s raised = elim (Bool-cases (is_created (s.job_spool i).status)) [
    | inr other ↦ rw other raised
    | inl waits ↦ elim (Option-cases (job_type i s)) [
      | inl unknown ↦ rw (waits, unknown) raised
      | inr (t, known) ↦ elim (Option-cases (select_compatible_printer (some t) s)) [
        | inl nobody ↦ rw (waits, known, nobody) raised
        | inr (p, chosen) ↦ rw (waits, known, chosen) (start_on-IsRaised i t p s raised)
      ]
    ]
  ]

  pub try_scheduling_jobs-IsRaised : (s : Spooler P) → IsRaised s → IsRaised (try_scheduling_jobs s)
  unfolding try_scheduling_jobs
  try_scheduling_jobs-IsRaised s =
      for_range-keeps IsRaised schedule_job schedule_job-IsRaised s.job_count 0 s

  update_job-IsRaised :
      (st : WaitStatus) (i : ℕ) (s : Spooler P) → IsRaised s → IsRaised (update_job st i s)
  unfolding update_job
  update_job-IsRaised st i s raised = ground (arith, raised)

  pub child_report-IsRaised :
      (pid : ℤ) (st : WaitStatus) (s : Spooler P) → IsRaised s → IsRaised (child_report pid st s)
  unfolding child_report match_job
  child_report-IsRaised pid st s =
      for_range-keeps IsRaised (match_job pid st)
        (λ i r raised. if_elim IsRaised _ _ _ (update_job-IsRaised st i r raised) raised)
        s.job_count 0 s

  compact-IsRaised : (i : ℕ) (s : Spooler P) → IsRaised s → IsRaised (compact i s)
  unfolding compact
  compact-IsRaised i s =
      for_range-keeps IsRaised shift_slot (λ j r raised. raised) (s.job_count - suc i) (suc i) s

  expiry_round-IsRaised :
      (now i : ℕ) (s : Spooler P) → IsRaised s → IsRaised (expiry_round now i s).1
  unfolding expiry_round remove_job
  expiry_round-IsRaised now i s raised =
      if_elim (λ (r : ℕ × Spooler P). IsRaised r.1) (is_expired now (s.job_spool i)) _ _
        (compact-IsRaised i _ raised) raised

  expiry_loop-IsRaised :
      (fuel now i : ℕ) (s : Spooler P) → IsRaised s → IsRaised (expiry_loop fuel now i s)
  unfolding expiry_loop
  expiry_loop-IsRaised zero now i s raised = raised
  expiry_loop-IsRaised (suc fuel) now i s raised =
      if_elim IsRaised (ltb i s.job_count) _ _
        (expiry_loop-IsRaised fuel now _ _ (expiry_round-IsRaised now i s raised)) raised

  pub delete_expired-IsRaised :
      (s : Spooler P) → IsRaised s → IsRaised (delete_expired_jobs_if_needed s)
  unfolding delete_expired_jobs_if_needed
  delete_expired-IsRaised s raised = expiry_loop-IsRaised s.job_count _ 0 _ raised
