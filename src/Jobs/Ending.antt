-- ===== src/Jobs/Ending.antt =====
-- A job that leaves the active statuses, and its printer: what cancel_job and the reports on a child
-- that has ended have in common.
use posix_printer_spooler.Prelude.{ℕ, ◌<◌, ◌≡◌, refl, ◌≢◌, ◌⊎◌, inl, inr, some, arith, ℕ_discrete}
use posix_printer_spooler.Platform.{Platform}
use posix_printer_spooler.Spooler.{
  Spooler, JobStatus, created, running, paused, finished, aborted, deleted,
}
use posix_printer_spooler.Jobs.Consistency.{
  IsActive, Holds, IsPlaced, IsConsistent, renamed-IsConsistent,
}

pub IsActive-cases : (st : JobStatus) → IsActive st ⊎ (¬ IsActive st)
IsActive-cases created = inr (λ h. ground arith)
IsActive-cases running = inl (inl refl)
IsActive-cases paused = inl (inr refl)
IsActive-cases finished = inr (λ h. ground arith)
IsActive-cases aborted = inr (λ h. ground arith)
IsActive-cases deleted = inr (λ h. ground arith)

module _ {P : Platform} where
  pub record Ended (i : ℕ) (s r : Spooler P) : Type 0 where
    pub same_jobs : r.job_count ≡ s.job_count
    pub same_printers : r.number_of_registered_printers ≡ s.number_of_registered_printers
    pub over : ¬ IsActive (r.job_spool i).status
    pub others : (k : ℕ) → k ≢ i → r.job_spool k ≡ s.job_spool k
    pub untouched :
        (p : ℕ)
        → (¬ IsActive (s.job_spool i).status) ⊎ ((s.job_spool i).target_printer ≢ some p)
        → r.printer_registry p ≡ s.printer_registry p

  module _ (i : ℕ) (s r : Spooler P) where
    Ended-Holds : Ended i s r → (k p : ℕ) → Holds r k p → (k ≢ i) × Holds s k p
    Ended-Holds d k p (h, a, e) = elim (ℕ_discrete k i) [
      | yes same ↦ absurd (d.over (rw same at a))
      | no ne ↦
          (ne, (ground (arith, d.same_jobs), rw (d.others k ne) at a, rw (d.others k ne) at e))
    ]

    Ended-IsPlaced : Ended i s r → IsConsistent s → (k : ℕ) → IsPlaced r k
    Ended-IsPlaced d c k h a n = elim (ℕ_discrete k i) [
      | yes same ↦ absurd (d.over (rw same at a))
      | no ne ↦
          c.placed k (ground (arith, d.same_jobs)) (rw (d.others k ne) at a)
            (rw (d.others k ne) at n)
    ]

    -- The end of a job keeps the invariant: its printer was held by no other job, if it was active.
    pub Ended-IsConsistent : i < s.job_count → Ended i s r → IsConsistent s → IsConsistent r
    Ended-IsConsistent here d c =
        renamed-IsConsistent (λ k. k) s r (λ j k e. e) (ground (arith, d.same_jobs, c.bounded))
          (Ended-IsPlaced d c) (λ k q h. (Ended-Holds d k q h).1)
          (λ k q h b. rw (d.same_printers, d.untouched q (other_target k q h)) b) c
      where
        other_target :
            (k q : ℕ)
            → Holds r k q
            → (¬ IsActive (s.job_spool i).status) ⊎ ((s.job_spool i).target_printer ≢ some q)
        other_target k q h = elim (IsActive-cases (s.job_spool i).status) [
          | inr inactive ↦ inl inactive
          | inl active ↦
              let (ne, g) = Ended-Holds d k q h in
              inr (λ e. ne (c.exclusive k i q g (here, active, e)))
        ]
