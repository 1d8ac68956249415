-- ===== src/Events/Cancel.antt =====
-- cancel_job against the events about printers.
use posix_printer_spooler.Prelude.{
  ℕ, ℤ, pos, negsuc, ◌<◌, ◌≡◌, inl, inr, refl, arith, Bool-cases, Option-cases, leb,
}
use posix_printer_spooler.Platform.{Platform, Signal, sigcont}
use posix_printer_spooler.Spooler.{
  Spooler, created, running, paused, finished, aborted, deleted, idle, JobStatus, kill_group,
}
use posix_printer_spooler.Control.{cancel_slot, cancel_job, terminate}
use posix_printer_spooler.Events.{announced, IsAnnounced, Silent-IsAnnounced, Tells-IsAnnounced}

module _ {P : Platform} where
  kill_group-IsAnnounced :
      (pgid : ℤ) (sig : Signal) (s : Spooler P)
      → IsAnnounced s
      → IsAnnounced (kill_group pgid sig s).1
  unfolding announced
  kill_group-IsAnnounced pgid sig s a =
      Silent-IsAnnounced s (kill_group pgid sig s).1
        (record { same_printers = refl; same_registry = refl; view = λ name. refl }) a.targets a

  terminate-IsAnnounced :
      (i : ℕ) (s : Spooler P) → i < s.job_count → IsAnnounced s → IsAnnounced (terminate i s).1
  unfolding announced
  terminate-IsAnnounced i s below a = elim (Option-cases (s.job_spool i).target_printer) [
    | inl no_target ↦
        Silent-IsAnnounced s (terminate i s).1
          (record {
            same_printers = ground (arith, no_target);
            same_registry = ground (arith, no_target);
            view = λ name. ground (arith, no_target);
          })
          (λ k p h e. ground (arith, a.targets k p, no_target)) a
    | inr (p, target) ↦
        Tells-IsAnnounced p idle s (terminate i s).1 (a.targets i p below target)
          (record {
            same_printers = ground (arith, target);
            printer = ground (arith, target);
            others = λ q ne. ground (arith, ne, target);
            view = λ name. ground (arith, target);
          })
          (λ k q h e. ground (arith, a.targets k q, target)) a
  ]

  aborted-IsAnnounced :
      (i : ℕ) (s : Spooler P)
      → (s.job_spool i).status ≡ created
      → IsAnnounced s
      → IsAnnounced (cancel_slot i s).1
  unfolding cancel_slot announced
  aborted-IsAnnounced i s waits a =
      Silent-IsAnnounced s (cancel_slot i s).1
        (record {
          same_printers = ground (arith, waits);
          same_registry = ground (arith, waits);
          view = λ name. ground (arith, waits);
        })
        (λ k p h e. ground (arith, a.targets k p, waits)) a

  cancel_slot-IsAnnounced :
      (i : ℕ) (s : Spooler P)
      → i < s.job_count
      → IsAnnounced s
      → (st : JobStatus) → (s.job_spool i).status ≡ st
      → IsAnnounced (cancel_slot i s).1
  unfolding cancel_slot
  cancel_slot-IsAnnounced i s below a created e = aborted-IsAnnounced i s e a
  cancel_slot-IsAnnounced i s below a running e =
      rw (cancel_slot, e) (terminate-IsAnnounced i s below a)
  cancel_slot-IsAnnounced i s below a paused e =
      rw (cancel_slot, e)
        (terminate-IsAnnounced i _ below (kill_group-IsAnnounced (s.job_spool i).pgid sigcont s a))
  cancel_slot-IsAnnounced i s below a finished e = rw (cancel_slot, e) a
  cancel_slot-IsAnnounced i s below a aborted e = rw (cancel_slot, e) a
  cancel_slot-IsAnnounced i s below a deleted e = rw (cancel_slot, e) a

  pub cancel-IsAnnounced :
      (job_id : ℤ) (s : Spooler P) → IsAnnounced s → IsAnnounced (cancel_job job_id s).1
  unfolding cancel_job
  cancel-IsAnnounced (negsuc n) s a = a
  cancel-IsAnnounced (pos n) s a = elim (Bool-cases (leb s.job_count n)) [
    | inl high ↦ rw high a
    | inr low ↦ rw low (cancel_slot-IsAnnounced n s (ground (arith, low)) a _ refl)
  ]
