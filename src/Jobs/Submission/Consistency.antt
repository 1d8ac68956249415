-- ===== src/Jobs/Submission/Consistency.antt =====
-- submit_print_job keeps the invariant of jobs and printers.
use posix_printer_spooler.Prelude.{
  ℕ, ◌<◌, ◌≡◌, refl, inl, inr, ℤ, success, failure, is_negative, true, false, Option, none, some,
  List, arith, Bool-cases,
}
use posix_printer_spooler.Text.{Text}
use posix_printer_spooler.Platform.{FileType, Conversion, Platform}
use posix_printer_spooler.Spooler.{
  Spooler, Job, max_jobs, Effect, forked, ◌▷◌, printer_type, emit, set_job,
}
use posix_printer_spooler.Jobs.{
  enqueue_job, register_job, count_job, queue_job, start_job, mark_running, report_job,
  try_scheduling_jobs, submit_print_job,
}
use posix_printer_spooler.Jobs.Scheduling.{Started}
use posix_printer_spooler.Jobs.Consistency.{
  IsConsistent, same-IsConsistent, renamed-IsConsistent, Started-IsConsistent,
  try_scheduling_jobs-IsConsistent,
}
use posix_printer_spooler.Jobs.Submission.{submit_cases}

module _ {P : Platform} where
  -- An unregistered slot may be written at will.
  fresh_slot-IsConsistent :
      (j : Job) (s : Spooler P) → IsConsistent s → IsConsistent (set_job s.job_count j s)
  fresh_slot-IsConsistent j s c =
      renamed-IsConsistent (λ k. k) s (set_job s.job_count j s) (λ j k e. e) c.bounded
        (λ k h. ground (arith, c.placed k)) (λ k q h. ground arith) (λ k q _ b. b) c

  enqueue_job-IsConsistent :
      (s : Spooler P)
      → s.job_count < max_jobs
      → IsConsistent s
      → IsConsistent (enqueue_job s.job_count s)
  enqueue_job-IsConsistent s room c =
      renamed-IsConsistent (λ k. k) s (enqueue_job s.job_count s) (λ j k e. e) room
        (λ k h. ground (arith, c.placed k)) (λ k q h. ground arith) (λ k q _ b. b) c

  pub start_job_failed :
      (i : ℕ) (t : FileType) (p : ℕ) (s : Spooler P)
      → is_negative (P.fork s.world).0 ≡ true
      → start_job i t p s ≡ (failure, record s { world = (P.fork s.world).1 })
  unfolding start_job
  start_job_failed i t p s h = rw h

  pub start_job_started :
      (i : ℕ) (t : FileType) (p : ℕ) (s : Spooler P)
      → is_negative (P.fork s.world).0 ≡ false
      → let path = P.find_conversion_path t.name (printer_type p s) s.table in
        start_job i t p s ≡ (
          success,
          emit
                (forked (P.fork s.world).0 (s.job_spool i) path)
                (record s { world = (P.fork s.world).1 })
              ▷ mark_running i p (P.fork s.world).0 path
              ▷ count_job
              ▷ report_job i t,
        )
  unfolding start_job
  start_job_started i t p s h = rw h (rw h)

  start_job-Started :
      (t : FileType) (p : ℕ) (pid : ℤ) (path : Option (List Conversion)) (s : Spooler P)
      (e : Effect) (w : P.World)
      → (s.job_spool s.job_count).target_printer ≡ some p
      → Started s.job_count p (enqueue_job s.job_count s) (
          emit e (record s { world = w })
          ▷ mark_running s.job_count p pid path
          ▷ count_job
          ▷ report_job s.job_count t)
  unfolding mark_running
  start_job-Started t p pid path s e w target = record {
    frame = record { same_table = refl; same_printers = refl; same_jobs = refl };
    printer = ground arith;
    other_printers = λ q ne. ground arith;
    others = λ k ne. ground arith;
    job_status = ground arith;
    job_target = ground arith;
    job_path = ground arith;
    job_id = ground arith;
  }

  -- A submission keeps the invariant, whether it succeeds or fails, with or without a printer named.
  pub submit-IsConsistent :
      (file_path : Text) (printer : Option ℕ) (s : Spooler P)
      → ((p : ℕ) → printer ≡ some p → p < s.number_of_registered_printers)
      → IsConsistent s
      → IsConsistent (submit_print_job (some file_path) printer s).1
  unfolding queue_job
  submit-IsConsistent file_path printer s valid c =
      submit_cases (λ r. IsConsistent r.1) file_path printer s (λ _. c)
        (λ t room _ _.
          same-IsConsistent (try_scheduling_jobs (enqueue_job s.job_count (new t none))) _ refl refl
            refl refl
            (try_scheduling_jobs-IsConsistent _
              (enqueue_job-IsConsistent (new t none) room (new-IsConsistent t none))))
        (λ t p room _ e fits. elim (Bool-cases (is_negative (P.fork (new t (some p)).world).0)) [
          | inl failed ↦ rw (start_job_failed s.job_count t p (new t (some p)) failed) (
              same-IsConsistent (new t (some p)) _ refl refl refl refl
                (new-IsConsistent t (some p)))
          | inr began ↦ rw (start_job_started s.job_count t p (new t (some p)) began) (
              Started-IsConsistent s.job_count p (enqueue_job s.job_count (new t (some p))) _
                (λ b. ground arith) (valid p e)
                (start_job-Started t p _ _ (new t (some p)) _ _ (ground arith))
                (enqueue_job-IsConsistent (new t (some p)) room (new-IsConsistent t (some p))))
        ])
    where
      new : FileType → Option ℕ → Spooler P
      new t target = register_job file_path t target s

      new-IsConsistent : (t : FileType) (target : Option ℕ) → IsConsistent (new t target)
      new-IsConsistent t target =
          same-IsConsistent (set_job s.job_count _ s) (new t target) refl refl refl refl
            (fresh_slot-IsConsistent _ s c)
