-- ===== src/Owned/Jobs.antt =====
-- Scheduling and submission.
use posix_printer_spooler.Prelude.{
  ℕ, refl, inl, inr, ℤ, is_negative, Option, none, some, List, arith, Bool-cases, Option-cases,
  for_range-keeps,
}
use posix_printer_spooler.Text.{Text, text_eq}
use posix_printer_spooler.Platform.{Platform, FileType, Conversion}
use posix_printer_spooler.Spooler.{Spooler, forked, emit, printer_type}
use posix_printer_spooler.Printers.{select_compatible_printer}
use posix_printer_spooler.Jobs.{
  is_created, job_type, set_target, mark_running, launch, start_on, schedule_job,
  try_scheduling_jobs, register_job, enqueue_job, queue_job, submit_print_job,
}
use posix_printer_spooler.Jobs.Scheduling.{launch_failed, launch_started}
use posix_printer_spooler.Jobs.Submission.{submit_cases}
use posix_printer_spooler.Owned.{HasForked, IsOwn, emit-Own, grow-Own, update-Own}

module _ {P : Platform} where
  set_target-IsOwn :
      (i : ℕ) (target : Option ℕ) (s : Spooler P) → IsOwn s → IsOwn (set_target i target s)
  set_target-IsOwn i target s own =
      update-Own i (record (s.job_spool i) { target_printer = target }) (λ h. own.grouped i h) own

  pub mark_running-IsOwn :
      (i p : ℕ) (pid : ℤ) (path : Option (List Conversion)) (s : Spooler P)
      → HasForked pid s.trace
      → IsOwn s
      → IsOwn (mark_running i p pid path s)
  unfolding mark_running
  mark_running-IsOwn i p pid path s has own =
      emit-Own _ refl (emit-Own _ refl (emit-Own _ refl (update-Own i _ (λ h. inr has) own)))

  launch-IsOwn :
      (i p : ℕ) (path : Option (List Conversion)) (s : Spooler P)
      → IsOwn s
      → IsOwn (launch i p path s)
  launch-IsOwn i p path s own = elim (Bool-cases (is_negative (P.fork s.world).0)) [
    | inl failed ↦
        rw (launch_failed i p path s failed)
          (set_target-IsOwn i none (record s { world = (P.fork s.world).1 }) own)
    | inr began ↦ rw (launch_started i p path s began) (
        mark_running-IsOwn i p (P.fork s.world).0 path
          (emit (forked (P.fork s.world).0 (s.job_spool i) path)
            (record s { world = (P.fork s.world).1 }))
          (inl refl) (emit-Own _ refl own))
  ]

  start_on-IsOwn :
      (i : ℕ) (t : FileType) (p : ℕ) (s : Spooler P) → IsOwn s → IsOwn (start_on i t p s)
  unfolding start_on
  start_on-IsOwn i t p s own =
      let own₁ = set_target-IsOwn i (some p) s own in
      let s₁ : Spooler P = set_target i (some p) s in
      elim (Bool-cases (text_eq t.name (printer_type p s))) [
        | inl direct ↦ rw direct (launch-IsOwn i p none s₁ own₁)
        | inr other ↦
            elim (Option-cases (P.find_conversion_path t.name (printer_type p s) s.table)) [
              | inl missing ↦ rw (other, missing) (set_target-IsOwn i none s₁ own₁)
              | inr (path, found) ↦ rw (other, found) (launch-IsOwn i p (some path) s₁ own₁)
            ]
      ]

  schedule_job-IsOwn : (i : ℕ) (s : Spooler P) → IsOwn s → IsOwn (schedule_job i s)
  unfolding schedule_job
  schedule_job-IsOwn i s own = elim (Bool-cases (is_created (s.job_spool i).status)) [
    | inr other ↦ rw other own
    | inl waits ↦ elim (Option-cases (job_type i s)) [
      | inl unknown ↦ rw (waits, unknown) own
      | inr (t, known) ↦ elim (Option-cases (select_compatible_printer (some t) s)) [
        | inl nobody ↦ rw (waits, known, nobody) own
        | inr (p, chosen) ↦ rw (waits, known, chosen) (start_on-IsOwn i t p s own)
      ]
    ]
  ]

  pub try_scheduling_jobs-IsOwn : (s : Spooler P) → IsOwn s → IsOwn (try_scheduling_jobs s)
  unfolding try_scheduling_jobs
  try_scheduling_jobs-IsOwn s =
      for_range-keeps IsOwn schedule_job schedule_job-IsOwn s.job_count 0 s

  -- A job comes in without a group.
  enqueued-IsOwn :
      (f : Text) (t : FileType) (s : Spooler P)
      → IsOwn s
      → IsOwn (enqueue_job s.job_count (register_job f t none s))
  enqueued-IsOwn f t s own = grow-Own (inl (ground arith, λ active. ground (arith, active))) (
      emit-Own _ refl (
        update-Own s.job_count _ (λ h. absurd (omega arith))
          (emit-Own _ refl (update-Own s.job_count _ (λ h. absurd (omega arith)) own))))

  pub submit-IsOwn :
      (f : Text) (s : Spooler P) → IsOwn s → IsOwn (submit_print_job (some f) none s).1
  unfolding queue_job
  submit-IsOwn f s own =
      submit_cases (λ r. IsOwn r.1) f none s (λ _. own)
        (λ t room known e. emit-Own _ refl (
          try_scheduling_jobs-IsOwn (enqueue_job s.job_count (register_job f t none s))
            (enqueued-IsOwn f t s own)))
        (λ t p room known e accepted. absurd (ground (arith, e)))
