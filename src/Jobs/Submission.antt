-- ===== src/Jobs/Submission.antt =====
-- submit_print_job: when it succeeds, and what it adds.
pub mod Consistency
use posix_printer_spooler.Prelude.{
  ℕ, suc, ◌≤◌, ◌<◌, ◌≡◌, refl, ◌∙◌, ◌≢◌, ◌⊎◌, inl, inr, ◌↔◌, ℤ, success, failure, is_negative, true,
  false, Option, none, some, List, leb, arith, for_range-keeps, Bool-cases, Option-cases,
}
use posix_printer_spooler.Text.{Text}
use posix_printer_spooler.Platform.{FileType, Conversion, Platform}
use posix_printer_spooler.Spooler.{
  Spooler, Job, max_jobs, Effect, forked, ◌▷◌, printer_type, emit, set_job,
}
use posix_printer_spooler.Jobs.{
  accepts, enqueue_job, register_job, count_job, queue_job, start_job, mark_running, report_job,
  schedule_job, try_scheduling_jobs, submit_print_job,
}
use posix_printer_spooler.Jobs.Scheduling.{Started, Round-Frame, Round-identity, schedule_job-Round}
use posix_printer_spooler.Jobs.Consistency.{
  IsConsistent, same-IsConsistent, renamed-IsConsistent, Started-IsConsistent,
  try_scheduling_jobs-IsConsistent,
}

module _ {P : Platform} where
  -- The cases of a submission.
  pub submit_cases {κ} :
      (Q : ℤ × Spooler P → Type κ) (file_path : Text) (printer : Option ℕ) (s : Spooler P)
      → ((max_jobs ≤ s.job_count) ⊎ (P.infer_file_type file_path s.table ≡ none) ⊎ (printer ≢ none)
          → Q (failure, s))
      → ((t : FileType)
          → s.job_count < max_jobs
          → P.infer_file_type file_path s.table ≡ some t
          → printer ≡ none
          → Q (queue_job s.job_count t (register_job file_path t none s)))
      → ((t : FileType) (p : ℕ)
          → s.job_count < max_jobs
          → P.infer_file_type file_path s.table ≡ some t
          → printer ≡ some p
          → accepts t (some p) s ≡ true
          → Q (start_job s.job_count t p (register_job file_path t (some p) s)))
      → Q (submit_print_job (some file_path) printer s)
  unfolding submit_print_job
  submit_cases Q f none s bad queued launched = elim (Bool-cases (leb max_jobs s.job_count)) [
    | inl full ↦ rw full (bad (inl (ground arith)))
    | inr room ↦ elim (Option-cases (P.infer_file_type f s.table)) [
      | inl unknown ↦ rw (room, unknown) (bad (inr (inl unknown)))
      | inr (t, known) ↦ rw (room, known) (queued t (ground arith) known refl)
    ]
  ]
  submit_cases Q f (some p) s bad queued launched = elim (Bool-cases (leb max_jobs s.job_count)) [
    | inl full ↦ rw full (bad (inl (ground arith)))
    | inr room ↦ elim (Option-cases (P.infer_file_type f s.table)) [
      | inl unknown ↦ rw (room, unknown) (bad (inr (inl unknown)))
      | inr (t, known) ↦ elim (Bool-cases (accepts t (some p) s)) [
        | inl fits ↦ rw (room, known, fits) (launched t p (ground arith) known refl fits)
        | inr refused ↦ rw (room, known, refused) (bad (inr (inr (λ e. cc))))
      ]
    ]
  ]

  -- What the new job and the others are after a pass of the scheduler.
  SameIdentity : Spooler P → Spooler P → Type 0
  SameIdentity s r =
      (r.job_count ≡ s.job_count)
      × ((k : ℕ)
          → ((r.job_spool k).id ≡ (s.job_spool k).id)
            × ((r.job_spool k).input_file_path ≡ (s.job_spool k).input_file_path))

  try_scheduling_jobs-identity : (s : Spooler P) → SameIdentity s (try_scheduling_jobs s)
  unfolding try_scheduling_jobs SameIdentity
  try_scheduling_jobs-identity s =
      for_range-keeps (SameIdentity s) schedule_job
        (λ i r (same, identity).
          let round = schedule_job-Round i r in
          (
            (Round-Frame i r _ round).same_jobs ∙ same,
            λ k.
                let (id, path) = Round-identity i r _ round k in
                (id ∙ (identity k).0, path ∙ (identity k).1),
          ))
        s.job_count 0 s (refl, λ k. (refl, refl))

  -- A `print` of a file of a known type, while the table has room, succeeds: the job takes the next
  -- slot and that slot's number for its id, keeps the path, and the others keep their slots.
  pub submit_adds :
      (file_path : Text) (s : Spooler P)
      → s.job_count < max_jobs
      → P.infer_file_type file_path s.table ≢ none
      → let (r, s') = submit_print_job (some file_path) none s in
        (r ≡ success)
        × (s'.job_count ≡ suc s.job_count)
        × ((s'.job_spool s.job_count).id ≡ s.job_count)
        × ((s'.job_spool s.job_count).input_file_path ≡ some file_path)
        × ((k : ℕ)
            → k < s.job_count
            → ((s'.job_spool k).id ≡ (s.job_spool k).id)
              × ((s'.job_spool k).input_file_path ≡ (s.job_spool k).input_file_path))
  unfolding queue_job SameIdentity
  submit_adds file_path s room known =
      submit_cases
        (λ (r, s').
          (r ≡ success)
          × (s'.job_count ≡ suc s.job_count)
          × ((s'.job_spool s.job_count).id ≡ s.job_count)
          × ((s'.job_spool s.job_count).input_file_path ≡ some file_path)
          × ((k : ℕ)
              → k < s.job_count
              → ((s'.job_spool k).id ≡ (s.job_spool k).id)
                × ((s'.job_spool k).input_file_path ≡ (s.job_spool k).input_file_path)))
        file_path none s (λ bad. absurd (ground arith))
        (λ t _ _ _.
          let i = s.job_count in
          let same =
            try_scheduling_jobs-identity (enqueue_job i (register_job file_path t none s)) in
          (
            refl,
            same.0,
            ground (arith, (same.1 i).0),
            ground (arith, (same.1 i).1),
            λ k h. (ground (arith, (same.1 k).0), ground (arith, (same.1 k).1)),
          ))
        (λ t p _ _ e. absurd (ground arith))

  -- Without a printer named, a submission succeeds exactly if the table has room and the type of
  -- the file is known; one that fails changes nothing.
  pub submit-succeeds_iff :
      (file_path : Text) (s : Spooler P)
      → (((submit_print_job (some file_path) none s).0 ≡ success)
          ↔ ((s.job_count < max_jobs) × (P.infer_file_type file_path s.table ≢ none)))
        × ((submit_print_job (some file_path) none s).0 ≢ success
            → submit_print_job (some file_path) none s ≡ (failure, s))
  unfolding queue_job
  submit-succeeds_iff file_path s =
      submit_cases
        (λ r.
          ((r.0 ≡ success)
            ↔ ((s.job_count < max_jobs) × (P.infer_file_type file_path s.table ≢ none)))
          × (r.0 ≢ success → r ≡ (failure, s)))
        file_path none s (λ bad. ((λ e. cc, λ h. ground arith), λ _. refl))
        (λ t room known _. ((λ _. (room, λ e. cc), λ _. refl), λ ne. absurd (ne refl)))
        (λ t p _ _ e. absurd (ground arith))
