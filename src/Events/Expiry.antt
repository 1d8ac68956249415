-- ===== src/Events/Expiry.antt =====
-- The deletion of expired jobs against the events about printers.
use posix_printer_spooler.Prelude.{ℕ, zero, suc, inl, inr, refl, ap, Bool-cases, ltb, ltb→lt}
use posix_printer_spooler.Platform.{Platform}
use posix_printer_spooler.Spooler.{Spooler}
use posix_printer_spooler.Expiry.{
  is_expired, expiry_loop, remove_job, delete_expired_jobs_if_needed,
}
use posix_printer_spooler.Expiry.Compaction.{Removed, remove_job-Removed}
use posix_printer_spooler.Expiry.Consistency.{origin, from_origin, origin-lt}
use posix_printer_spooler.Events.{announced, IsAnnounced, Silent-IsAnnounced}

module _ {P : Platform} where
  Removed-IsAnnounced : (i : ℕ) (s r : Spooler P) → Removed i s r → IsAnnounced s → IsAnnounced r
  unfolding announced
  Removed-IsAnnounced i s r d a =
      Silent-IsAnnounced s r
        (record {
          same_printers = d.same_printers;
          same_registry = d.same_registry;
          view = λ name. ap (announced name) d.event;
        })
        (λ k p h e.
          rw d.same_printers
            (a.targets (origin i k) p (origin-lt i s r d k h) (rw (from_origin i s r d k h) at e)))
        a

  expiry_loop-IsAnnounced :
      (fuel now i : ℕ) (s : Spooler P) → IsAnnounced s → IsAnnounced (expiry_loop fuel now i s)
  unfolding expiry_loop
  expiry_loop-IsAnnounced zero now i s a = a
  expiry_loop-IsAnnounced (suc fuel) now i s a = elim (Bool-cases (ltb i s.job_count)) [
    | inr done ↦ rw done a
    | inl more ↦ rw more (elim (Bool-cases (is_expired now (s.job_spool i))) [
      | inl gone ↦ rw gone (
          expiry_loop-IsAnnounced fuel now i (remove_job i s)
            (Removed-IsAnnounced i s _ (remove_job-Removed i s (ltb→lt _ _ more)) a))
      | inr keep ↦ rw keep (expiry_loop-IsAnnounced fuel now (suc i) s a)
    ])
  ]

  pub delete_expired-IsAnnounced :
      (s : Spooler P) → IsAnnounced s → IsAnnounced (delete_expired_jobs_if_needed s)
  unfolding delete_expired_jobs_if_needed
  delete_expired-IsAnnounced s a = expiry_loop-IsAnnounced s.job_count (P.time s.world).0 0 _ (
      Silent-IsAnnounced s (record s { world = (P.time s.world).1 })
        (record { same_printers = refl; same_registry = refl; view = λ name. refl }) a.targets a)
