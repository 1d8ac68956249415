-- ===== src/Control/Cancel.antt =====
-- cancel_job: when it succeeds, what it changes, and that it keeps the invariant.
use posix_printer_spooler.Prelude.{
  ℕ, ◌<◌, ◌≡◌, refl, ◌≢◌, ◌⊎◌, inl, inr, ◌↔◌, ℤ, pos, negsuc, success, failure, some, List, [], ◌∷◌,
  ◌++◌, arith, Bool-cases, int_eq, int_eq_iff,
}
use posix_printer_spooler.Platform.{Platform, Signal, sigcont, sigterm}
use posix_printer_spooler.Spooler.{
  Spooler, JobStatus, Job, created, running, paused, aborted, idle, Effect, killed,
}
use posix_printer_spooler.Jobs.Consistency.{IsActive, IsConsistent}
use posix_printer_spooler.Jobs.History.{turned, Tells}
use posix_printer_spooler.Jobs.Ending.{Ended, Ended-IsConsistent}
use posix_printer_spooler.Control.{cancel_slot, cancel_job}

-- The statuses in which a job can be cancelled.
abbrev pub IsCancellable : JobStatus → Type 0
IsCancellable st = (st ≡ created) ⊎ IsActive st

module _ {P : Platform} where
  -- A cancellation succeeds exactly for the number of a slot in use whose job is CREATED, RUNNING or
  -- PAUSED; one that fails changes nothing.
  pub cancel-succeeds_iff :
      (job_id : ℤ) (s : Spooler P)
      → (((cancel_job job_id s).0 ≡ success)
          ↔ ((i : ℕ) × (job_id ≡ pos i) × (i < s.job_count) × IsCancellable (s.job_spool i).status))
        × ((cancel_job job_id s).0 ≢ success → cancel_job job_id s ≡ (failure, s))
  unfolding cancel_job
  cancel-succeeds_iff (negsuc i) s = ((λ h. ground arith, λ h. ground arith), λ _. refl)
  cancel-succeeds_iff (pos i) s =
      ((λ h. (i, refl, ground arith, ground arith), λ h. ground arith), λ h. ground arith)

-- The signals of a trace, the newest first.
abbrev pub signals : List Effect → List (ℤ × Signal)
signals [] = []
signals (killed pgid sig ∷ trace) = (pgid, sig) ∷ signals trace
signals (_ ∷ trace) = signals trace

-- What a cancellation sends to the pipeline: SIGTERM, behind a SIGCONT if the job is paused.
abbrev pub sent : Job → List (ℤ × Signal)
sent j = elim j.status [
  | running ↦ (j.pgid, sigterm) ∷ []
  | paused ↦ (j.pgid, sigterm) ∷ (j.pgid, sigcont) ∷ []
  | _ ↦ []
]

module _ {P : Platform} where
  -- What a cancellation makes of the tables.
  pub record Cancelled (i : ℕ) (s r : Spooler P) : Type 0 where
    pub same_jobs : r.job_count ≡ s.job_count
    pub same_printers : r.number_of_registered_printers ≡ s.number_of_registered_printers
    pub job_status : (r.job_spool i).status ≡ aborted
    pub job_rest :
        ((r.job_spool i).id ≡ (s.job_spool i).id)
        × ((r.job_spool i).pgid ≡ (s.job_spool i).pgid)
        × ((r.job_spool i).target_printer ≡ (s.job_spool i).target_printer)
        × ((r.job_spool i).input_file_path ≡ (s.job_spool i).input_file_path)
    pub others : (k : ℕ) → k ≢ i → r.job_spool k ≡ s.job_spool k
    pub freed :
        (p : ℕ)
        → IsActive (s.job_spool i).status
        → (s.job_spool i).target_printer ≡ some p
        → r.printer_registry p ≡ record (s.printer_registry p) { status = idle }
    pub untouched :
        (p : ℕ)
        → ((s.job_spool i).status ≡ created) ⊎ ((s.job_spool i).target_printer ≢ some p)
        → r.printer_registry p ≡ s.printer_registry p
    pub told : Tells (turned (s.job_spool i).id aborted) s r
    pub signalled : signals r.trace ≡ sent (s.job_spool i) ++ signals s.trace

  cancel_slot-Cancelled :
      (i : ℕ) (s : Spooler P)
      → IsCancellable (s.job_spool i).status
      → Cancelled i s (cancel_slot i s).1
  unfolding cancel_slot
  cancel_slot-Cancelled i s h = record {
    same_jobs = ground arith;
    same_printers = ground arith;
    job_status = ground arith;
    job_rest = (ground arith, ground arith, ground arith, ground arith);
    others = λ k ne. ground arith;
    freed = λ p a e. ground arith;
    untouched = λ p e. ground arith;
    told = record { more_history = ground arith; same_initialized = ground arith };
    signalled = ground arith;
  }

  cancel_job-slot :
      (i : ℕ) (s : Spooler P) → i < s.job_count → cancel_job (pos i) s ≡ cancel_slot i s
  unfolding cancel_job
  cancel_job-slot i s h = ground arith

  -- A cancellation that succeeds makes the job of the slot ABORTED, with its id, path, process
  -- group and printer kept; it frees the printer of an active job and no other printer, changes no other job,
  -- and sends SIGTERM to the group of an active job, behind a SIGCONT if the job was paused.
  pub cancel_effect :
      (i : ℕ) (s : Spooler P)
      → i < s.job_count
      → IsCancellable (s.job_spool i).status
      → Cancelled i s (cancel_job (pos i) s).1
  cancel_effect i s h c = rw (cancel_job-slot i s h) (cancel_slot-Cancelled i s c)

  Cancelled-Ended :
      (i : ℕ) (s r : Spooler P)
      → IsCancellable (s.job_spool i).status
      → Cancelled i s r
      → Ended i s r
  Cancelled-Ended i s r was d = record {
    same_jobs = d.same_jobs;
    same_printers = d.same_printers;
    over = ground (arith, d.job_status);
    others = d.others;
    untouched = λ p h. d.untouched p (ground arith);
  }

  -- A cancellation keeps the invariant, whatever its argument and its result.
  pub cancel-IsConsistent :
      (job_id : ℤ) (s : Spooler P) → IsConsistent s → IsConsistent (cancel_job job_id s).1
  cancel-IsConsistent job_id s c = elim (Bool-cases (int_eq (cancel_job job_id s).0 success)) [
    | inl won ↦
        let (i, e, h, was) = (cancel-succeeds_iff job_id s).0.0 ((int_eq_iff _ _).0 won) in
        rw e (Ended-IsConsistent i s _ h (Cancelled-Ended i s _ was (cancel_effect i s h was)) c)
    | inr lost ↦
        rw
          ((cancel-succeeds_iff job_id s).1
            (λ e. ground (arith, (int_eq_iff (cancel_job job_id s).0 success).1 e)))
          c
  ]
