-- ===== src/Events/Jobs.antt =====
-- Scheduling, submission and cancellation against the events about printers.
use posix_printer_spooler.Prelude.{
  ℕ, ℤ, ◌<◌, ◌≡◌, inl, inr, refl, is_negative, Option, none, some, List, arith, Bool-cases,
  Option-cases, for_range-keeps,
}
use posix_printer_spooler.Text.{Text, text_eq}
use posix_printer_spooler.Platform.{FileType, Conversion, Platform}
use posix_printer_spooler.Spooler.{Spooler, Job, forked, busy, printer_type, emit}
use posix_printer_spooler.Printers.{select_compatible_printer}
use posix_printer_spooler.Printers.Selection.{Selects, select-Selects}
use posix_printer_spooler.Jobs.{
  is_created, job_type, set_target, mark_running, launch, start_on, schedule_job,
  try_scheduling_jobs, register_job, enqueue_job, queue_job, submit_print_job,
}
use posix_printer_spooler.Jobs.Scheduling.{launch_failed, launch_started}
use posix_printer_spooler.Jobs.Submission.{submit_cases}
use posix_printer_spooler.Events.{announced, IsAnnounced, Silent-IsAnnounced, Tells-IsAnnounced}

module _ {P : Platform} where
  set_target-IsAnnounced :
      (i : ℕ) (target : Option ℕ) (s : Spooler P)
      → ((p : ℕ) → target ≡ some p → p < s.number_of_registered_printers)
      → IsAnnounced s
      → IsAnnounced (set_target i target s)
  set_target-IsAnnounced i target s valid a =
      Silent-IsAnnounced s (set_target i target s)
        (record { same_printers = refl; same_registry = refl; view = λ name. refl })
        (λ k p h e. ground (arith, valid p, a.targets k p)) a

  -- A change of the clock, and an event about no printer.
  world-IsAnnounced :
      (w : P.World) (s : Spooler P) → IsAnnounced s → IsAnnounced (record s { world = w })
  world-IsAnnounced w s a =
      Silent-IsAnnounced s (record s { world = w })
        (record { same_printers = refl; same_registry = refl; view = λ name. refl }) a.targets a

  forked-IsAnnounced :
      (pid : ℤ) (job : Job) (path : Option (List Conversion)) (s : Spooler P)
      → IsAnnounced s
      → IsAnnounced (emit (forked pid job path) s)
  unfolding announced
  forked-IsAnnounced pid job path s a =
      Silent-IsAnnounced s (emit (forked pid job path) s)
        (record { same_printers = refl; same_registry = refl; view = λ name. refl }) a.targets a

  mark_running-IsAnnounced :
      (i p : ℕ) (pid : ℤ) (path : Option (List Conversion)) (s : Spooler P)
      → p < s.number_of_registered_printers
      → IsAnnounced s
      → IsAnnounced (mark_running i p pid path s)
  unfolding mark_running announced
  mark_running-IsAnnounced i p pid path s below a =
      Tells-IsAnnounced p busy s (mark_running i p pid path s) below
        (record {
          same_printers = refl;
          printer = ground arith;
          others = λ q ne. ground (arith, ne);
          view = λ name. ground arith;
        })
        (λ k q h e. ground (arith, a.targets k q)) a

  launch-IsAnnounced :
      (i p : ℕ) (path : Option (List Conversion)) (s : Spooler P)
      → p < s.number_of_registered_printers
      → IsAnnounced s
      → IsAnnounced (launch i p path s)
  launch-IsAnnounced i p path s below a = elim (Bool-cases (is_negative (P.fork s.world).0)) [
    | inl failed ↦
        rw (launch_failed i p path s failed)
          (set_target-IsAnnounced i none _ (λ q e. ground (arith, e)) (world-IsAnnounced _ s a))
    | inr began ↦ rw (launch_started i p path s began) (
        mark_running-IsAnnounced i p _ path _ below
          (forked-IsAnnounced _ _ path _ (world-IsAnnounced _ s a)))
  ]

  start_on-IsAnnounced :
      (i : ℕ) (t : FileType) (p : ℕ) (s : Spooler P)
      → p < s.number_of_registered_printers
      → IsAnnounced s
      → IsAnnounced (start_on i t p s)
  unfolding start_on
  start_on-IsAnnounced i t p s below a =
      let a₁ = set_target-IsAnnounced i (some p) s (λ q e. ground (arith, e, below)) a in
      elim (Bool-cases (text_eq t.name (printer_type p s))) [
        | inl direct ↦ rw direct (launch-IsAnnounced i p none _ below a₁)
        | inr other ↦
            elim (Option-cases (P.find_conversion_path t.name (printer_type p s) s.table)) [
              | inl missing ↦
                  rw (other, missing)
                    (set_target-IsAnnounced i none _ (λ q e. ground (arith, e)) a₁)
              | inr (path, found) ↦
                  rw (other, found) (launch-IsAnnounced i p (some path) _ below a₁)
            ]
      ]

  schedule_job-IsAnnounced :
      (i : ℕ) (s : Spooler P) → IsAnnounced s → IsAnnounced (schedule_job i s)
  unfolding schedule_job
  schedule_job-IsAnnounced i s a = elim (Bool-cases (is_created (s.job_spool i).status)) [
    | inr other ↦ rw other a
    | inl waits ↦ elim (Option-cases (job_type i s)) [
      | inl unknown ↦ rw (waits, unknown) a
      | inr (t, known) ↦ elim (Option-cases (select_compatible_printer (some t) s)) [
        | inl nobody ↦ rw (waits, known, nobody) a
        | inr (p, chosen) ↦
            let first : Selects t s (some p) = rw chosen at (select-Selects t s) in
            rw (waits, known, chosen) (start_on-IsAnnounced i t p s first.0.registered a)
      ]
    ]
  ]

  pub try_scheduling_jobs-IsAnnounced :
      (s : Spooler P) → IsAnnounced s → IsAnnounced (try_scheduling_jobs s)
  unfolding try_scheduling_jobs
  try_scheduling_jobs-IsAnnounced s =
      for_range-keeps IsAnnounced schedule_job schedule_job-IsAnnounced s.job_count 0 s

  enqueued-IsAnnounced :
      (file_path : Text) (t : FileType) (s : Spooler P)
      → IsAnnounced s
      → IsAnnounced (enqueue_job s.job_count (register_job file_path t none s))
  unfolding announced
  enqueued-IsAnnounced file_path t s a =
      Silent-IsAnnounced s (enqueue_job s.job_count (register_job file_path t none s))
        (record { same_printers = refl; same_registry = refl; view = λ name. refl })
        (λ k p h e. ground (arith, a.targets k p)) a

  pub submit-IsAnnounced :
      (file_path : Text) (s : Spooler P)
      → IsAnnounced s
      → IsAnnounced (submit_print_job (some file_path) none s).1
  unfolding queue_job announced
  submit-IsAnnounced file_path s a =
      submit_cases (λ r. IsAnnounced r.1) file_path none s (λ _. a)
        (λ t _ _ _.
          let a₁ = try_scheduling_jobs-IsAnnounced _ (enqueued-IsAnnounced file_path t s a) in
          Silent-IsAnnounced _ _
            (record { same_printers = refl; same_registry = refl; view = λ name. refl }) a₁.targets
            a₁)
        (λ t p _ _ e. absurd (ground arith))
