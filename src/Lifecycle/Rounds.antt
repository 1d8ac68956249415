-- ===== src/Lifecycle/Rounds.antt =====
-- What one round of try_scheduling_jobs tells of the jobs.
use posix_printer_spooler.Prelude.{
  ℕ, ◌≡◌, refl, Option, none, some, List, arith, ◌⊎◌, inl, inr, Bool-cases, Option-cases,
  is_negative,
}
use posix_printer_spooler.Text.{text_eq}
use posix_printer_spooler.Platform.{Platform, FileType, Conversion}
use posix_printer_spooler.Spooler.{Spooler, running, printer_type}
use posix_printer_spooler.Printers.{select_compatible_printer}
use posix_printer_spooler.Jobs.{
  is_created, job_type, set_target, mark_running, launch, start_on, schedule_job,
}
use posix_printer_spooler.Jobs.Scheduling.{launch_failed, launch_started}
use posix_printer_spooler.Jobs.History.{turned, IsQuiet, Tells}

module _ {P : Platform} where
  -- Nothing is told, and the job in slot `i` keeps its status; or it is told to be RUNNING, and is.
  abbrev pub Reported : ℕ → Spooler P → Spooler P → Type 0
  Reported i s r =
      (IsQuiet s r × ((r.job_spool i).status ≡ (s.job_spool i).status))
      ⊎ (Tells (turned (s.job_spool i).id running) s r × ((r.job_spool i).status ≡ running))

  launch-Reported :
      (i p : ℕ) (path : Option (List Conversion)) (s : Spooler P)
      → Reported i s (launch i p path (set_target i (some p) s))
  unfolding mark_running
  launch-Reported i p path s = elim (Bool-cases (is_negative (P.fork s.world).0)) [
    | inl failed ↦
        rw (launch_failed i p path (set_target i (some p) s) failed)
          (inl (record { same_history = refl; stays_on = λ up. up }, ground arith))
    | inr forked ↦
        rw (launch_started i p path (set_target i (some p) s) forked)
          (inr (record { more_history = ground arith; same_initialized = refl }, ground arith))
  ]

  start_on-Reported :
      (i : ℕ) (t : FileType) (p : ℕ) (s : Spooler P) → Reported i s (start_on i t p s)
  unfolding start_on
  start_on-Reported i t p s = elim (Bool-cases (text_eq t.name (printer_type p s))) [
    | inl direct ↦ rw direct (launch-Reported i p none s)
    | inr other ↦ elim (Option-cases (P.find_conversion_path t.name (printer_type p s) s.table)) [
      | inl missing ↦
          rw (other, missing)
            (inl (record { same_history = refl; stays_on = λ up. up }, ground arith))
      | inr (path, found) ↦ rw (other, found) (launch-Reported i p (some path) s)
    ]
  ]

  pub schedule_job-Reported : (i : ℕ) (s : Spooler P) → Reported i s (schedule_job i s)
  unfolding schedule_job
  schedule_job-Reported i s = elim (Bool-cases (is_created (s.job_spool i).status)) [
    | inr other ↦ rw other (inl (record { same_history = refl; stays_on = λ up. up }, refl))
    | inl waits ↦ elim (Option-cases (job_type i s)) [
      | inl unknown ↦
          rw (waits, unknown) (inl (record { same_history = refl; stays_on = λ up. up }, refl))
      | inr (t, known) ↦ elim (Option-cases (select_compatible_printer (some t) s)) [
        | inl nobody ↦
            rw (waits, known, nobody)
              (inl (record { same_history = refl; stays_on = λ up. up }, refl))
        | inr (p, chosen) ↦ rw (waits, known, chosen) (start_on-Reported i t p s)
      ]
    ]
  ]
