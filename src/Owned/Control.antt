-- ===== src/Owned/Control.antt =====
-- The signals of cancel, pause and resume.
use posix_printer_spooler.Prelude.{
  ℕ, ◌<◌, ◌≡◌, refl, inl, inr, false, ℤ, pos, negsuc, Option, none, some, arith, leb, Bool-cases,
}
use posix_printer_spooler.Platform.{Platform, sigstop, sigcont, sigterm}
use posix_printer_spooler.Spooler.{
  Spooler, JobStatus, created, running, paused, finished, aborted, deleted, job_status, emit,
  kill_group,
}
use posix_printer_spooler.Control.{
  mark_aborted, free_printer, report_printer, terminate, cancel_slot, cancel_job, pause_job,
  resume_job,
}
use posix_printer_spooler.Owned.{
  HasForked, IsOwn, emit-Own, killed-Own, update-Own, active_group, resting_group,
}

module _ {P : Platform} where
  mark_aborted-IsOwn : (i : ℕ) (s : Spooler P) → IsOwn s → IsOwn (mark_aborted i s)
  mark_aborted-IsOwn i s own =
      update-Own i _
        (λ h.
          resting_group s.trace (s.job_spool i) aborted (λ active. ground (arith, active))
            (own.grouped i h))
        own

  free_printer-IsOwn : (p : Option ℕ) (s : Spooler P) → IsOwn s → IsOwn (free_printer p s)
  free_printer-IsOwn none s own = own
  free_printer-IsOwn (some p) s own = own

  report_printer-IsOwn : (p : Option ℕ) (s : Spooler P) → IsOwn s → IsOwn (report_printer p s)
  report_printer-IsOwn none s own = own
  report_printer-IsOwn (some p) s own = emit-Own _ refl own

  terminate-IsOwn :
      (i : ℕ) (s : Spooler P)
      → HasForked (s.job_spool i).pgid s.trace
      → IsOwn s
      → IsOwn (terminate i s).1
  terminate-IsOwn i s has own =
      let job = s.job_spool i in
      let s₁ : Spooler P = (kill_group job.pgid sigterm s).1 in
      let s₂ : Spooler P = mark_aborted i s₁ in
      let s₃ : Spooler P = free_printer job.target_printer s₂ in
      let s₄ : Spooler P = emit (job_status job.id aborted) s₃ in
      let own₂ = mark_aborted-IsOwn i s₁ (killed-Own job.pgid sigterm has own) in
      let own₃ = free_printer-IsOwn job.target_printer s₂ own₂ in
      emit-Own _ refl (report_printer-IsOwn job.target_printer s₄ (emit-Own _ refl own₃))

  cancel_slot-IsOwn :
      (i : ℕ) (s : Spooler P)
      → i < s.job_count
      → IsOwn s
      → (st : JobStatus) → (s.job_spool i).status ≡ st
      → IsOwn (cancel_slot i s).1
  unfolding cancel_slot
  cancel_slot-IsOwn i s below own created e =
      rw (cancel_slot, e) (emit-Own _ refl (emit-Own _ refl (mark_aborted-IsOwn i s own)))
  cancel_slot-IsOwn i s below own running e =
      rw (cancel_slot, e) (terminate-IsOwn i s (active_group i below (inl e) own) own)
  cancel_slot-IsOwn i s below own paused e =
      let has = active_group i below (inr e) own in
      rw (cancel_slot, e)
        (terminate-IsOwn i _ (inr has) (killed-Own (s.job_spool i).pgid sigcont has own))
  cancel_slot-IsOwn i s below own finished e = rw (cancel_slot, e) own
  cancel_slot-IsOwn i s below own aborted e = rw (cancel_slot, e) own
  cancel_slot-IsOwn i s below own deleted e = rw (cancel_slot, e) own

  pub cancel-IsOwn : (job_id : ℤ) (s : Spooler P) → IsOwn s → IsOwn (cancel_job job_id s).1
  unfolding cancel_job
  cancel-IsOwn (negsuc n) s own = own
  cancel-IsOwn (pos n) s own = elim (Bool-cases (leb s.job_count n)) [
    | inl high ↦ rw high own
    | inr low ↦ rw low (cancel_slot-IsOwn n s (ground (arith, low)) own _ refl)
  ]

  pause_slot-IsOwn :
      (i : ℕ) (s : Spooler P)
      → leb s.job_count i ≡ false
      → IsOwn s
      → (st : JobStatus) → (s.job_spool i).status ≡ st
      → IsOwn (pause_job (pos i) s).1
  unfolding pause_job
  pause_slot-IsOwn i s low own created e = rw (low, pause_job, e) own
  pause_slot-IsOwn i s low own running e =
      rw (low, pause_job, e)
        (killed-Own _ sigstop (active_group i (ground (arith, low)) (inl e) own) own)
  pause_slot-IsOwn i s low own paused e = rw (low, pause_job, e) own
  pause_slot-IsOwn i s low own finished e = rw (low, pause_job, e) own
  pause_slot-IsOwn i s low own aborted e = rw (low, pause_job, e) own
  pause_slot-IsOwn i s low own deleted e = rw (low, pause_job, e) own

  pub pause-IsOwn : (job_id : ℤ) (s : Spooler P) → IsOwn s → IsOwn (pause_job job_id s).1
  unfolding pause_job
  pause-IsOwn (negsuc n) s own = own
  pause-IsOwn (pos n) s own = elim (Bool-cases (leb s.job_count n)) [
    | inl high ↦ rw high own
    | inr low ↦ pause_slot-IsOwn n s low own _ refl
  ]

  resume_slot-IsOwn :
      (i : ℕ) (s : Spooler P)
      → leb s.job_count i ≡ false
      → IsOwn s
      → (st : JobStatus) → (s.job_spool i).status ≡ st
      → IsOwn (resume_job (pos i) s).1
  unfolding resume_job
  resume_slot-IsOwn i s low own created e = rw (low, resume_job, e) own
  resume_slot-IsOwn i s low own running e = rw (low, resume_job, e) own
  resume_slot-IsOwn i s low own paused e =
      rw (low, resume_job, e)
        (killed-Own _ sigcont (active_group i (ground (arith, low)) (inr e) own) own)
  resume_slot-IsOwn i s low own finished e = rw (low, resume_job, e) own
  resume_slot-IsOwn i s low own aborted e = rw (low, resume_job, e) own
  resume_slot-IsOwn i s low own deleted e = rw (low, resume_job, e) own

  pub resume-IsOwn : (job_id : ℤ) (s : Spooler P) → IsOwn s → IsOwn (resume_job job_id s).1
  unfolding resume_job
  resume-IsOwn (negsuc n) s own = own
  resume-IsOwn (pos n) s own = elim (Bool-cases (leb s.job_count n)) [
    | inl high ↦ rw high own
    | inr low ↦ resume_slot-IsOwn n s low own _ refl
  ]
