-- ===== src/Owned/Children.antt =====
-- The removal of jobs, and the reports on children, which carry the pid of a child.
use posix_printer_spooler.Prelude.{
  ℕ, zero, suc, ◌<◌, ◌≡◌, refl, inl, inr, ℤ, pos, negsuc, int_eq, int_eq_iff, Option, none, some,
  List, [], ◌∷◌, arith, ltb, dec_lt, if_elim, if_then_elim, for_range-within, ◌∙◌, false,
}
use posix_printer_spooler.Platform.{Platform, WaitStatus, stopped, continued, exited, signaled}
use posix_printer_spooler.Spooler.{Spooler, Job, Effect}
use posix_printer_spooler.Expiry.{
  remove_job, is_expired, expiry_round, expiry_loop, delete_expired_jobs_if_needed,
}
use posix_printer_spooler.Expiry.Compaction.{Removed, remove_job-Removed}
use posix_printer_spooler.Children.{
  update_job, match_job, child_report, child_reports, handle_child_status_updates, release_printer,
}
use posix_printer_spooler.Children.Consistency.{match_job-others}
use posix_printer_spooler.Owned.{HasForked, HasGroup, IsOwn, emit-Own, update-Own}
use posix_printer_spooler.Owned.Jobs.{try_scheduling_jobs-IsOwn}

-- A process id; `waitpid` reports no other, and the loop ends at 0 and at -1.
abbrev pub IsPid : ℤ → Type 0
IsPid (pos n) = 0 < n
IsPid (negsuc n) = ⊥

abbrev pub ArePids : List (ℤ × WaitStatus) → Type 0
ArePids [] = Unit
ArePids ((pid, status) ∷ rest) = IsPid pid × ArePids rest

-- A job with the pid of a child has a group.
child_group :
    (trace : List Effect) (j : Job) → IsPid j.pgid → HasGroup trace j → HasForked j.pgid trace
child_group trace j child (inl (no_group, rests)) = absurd (rw no_group at child)
child_group trace j child (inr has) = has

module _ {P : Platform} where
  remove_job-IsOwn : (i : ℕ) (s : Spooler P) → i < s.job_count → IsOwn s → IsOwn (remove_job i s)
  remove_job-IsOwn i s below own =
      let gone : Removed i s (remove_job i s) = remove_job-Removed i s below in
      rw gone.event (
        emit-Own _ refl (record {
          grouped = λ k h. elim (dec_lt k i) [
            | yes before ↦ rw (gone.before k before) (own.grouped k (omega (arith, h, gone.fewer)))
            | no behind ↦
                rw (gone.behind k (omega arith) h)
                  (own.grouped (suc k) (omega (arith, h, gone.fewer)))
          ];
          signals = own.signals;
        }))

  expiry_loop-IsOwn : (fuel now i : ℕ) (s : Spooler P) → IsOwn s → IsOwn (expiry_loop fuel now i s)
  unfolding expiry_loop expiry_round
  expiry_loop-IsOwn zero now i s own = own
  expiry_loop-IsOwn (suc fuel) now i s own =
      if_then_elim IsOwn (ltb i s.job_count) _ _
        (λ below. expiry_loop-IsOwn fuel now (expiry_round now i s).0 (expiry_round now i s).1 (
          if_elim (λ (r : ℕ × Spooler P). IsOwn r.1) (is_expired now (s.job_spool i)) _ _
            (remove_job-IsOwn i s (ground arith) own) own))
        own

  pub delete_expired-IsOwn : (s : Spooler P) → IsOwn s → IsOwn (delete_expired_jobs_if_needed s)
  unfolding delete_expired_jobs_if_needed
  delete_expired-IsOwn s own =
      expiry_loop-IsOwn s.job_count (P.time s.world).0 0 (record s { world = (P.time s.world).1 })
        own

  release_printer-IsOwn :
      (target : Option ℕ) (s : Spooler P) → IsOwn s → IsOwn (release_printer target s)
  release_printer-IsOwn none s own = own
  release_printer-IsOwn (some p) s own = emit-Own _ refl own

  update_job-IsOwn :
      (st : WaitStatus) (i : ℕ) (s : Spooler P)
      → HasForked (s.job_spool i).pgid s.trace
      → IsOwn s
      → IsOwn (update_job st i s)
  unfolding update_job
  update_job-IsOwn stopped i s has own = emit-Own _ refl (update-Own i _ (λ h. inr has) own)
  update_job-IsOwn continued i s has own = emit-Own _ refl (update-Own i _ (λ h. inr has) own)
  update_job-IsOwn (exited code) i s has own =
      release_printer-IsOwn (s.job_spool i).target_printer _
        (emit-Own _ refl (emit-Own _ refl (update-Own i _ (λ h. inr has) own)))
  update_job-IsOwn (signaled signum) i s has own =
      release_printer-IsOwn (s.job_spool i).target_printer _
        (emit-Own _ refl (emit-Own _ refl (update-Own i _ (λ h. inr has) own)))

  -- The invariant, with the number of jobs, which no report changes.
  Counted : ℕ → ℕ → Spooler P → Type 0
  Counted n m s = (s.job_count ≡ n) × IsOwn s

  match_job-Counted :
      (pid : ℤ) (st : WaitStatus)
      → IsPid pid
      → (n i : ℕ) (s : Spooler P) → i < n
      → Counted n i s
      → Counted n (suc i) (match_job pid st i s)
  unfolding match_job Counted
  match_job-Counted pid st child n i s below (count, own) = (
    (match_job-others pid st i s).0 ∙ count,
    if_then_elim IsOwn (int_eq (s.job_spool i).pgid pid) _ s
        (λ mine.
          let same = (int_eq_iff (s.job_spool i).pgid pid).0 mine in
          update_job-IsOwn st i s
            (child_group s.trace (s.job_spool i) (rw same child) (own.grouped i (omega arith))) own)
        own,
  )

  child_report-IsOwn :
      (pid : ℤ) (st : WaitStatus) (s : Spooler P)
      → IsPid pid
      → IsOwn s
      → IsOwn (child_report pid st s)
  unfolding child_report Counted
  child_report-IsOwn pid st s child own =
      (for_range-within (Counted s.job_count) (match_job pid st) s.job_count
        (match_job-Counted pid st child s.job_count) s.job_count 0 s (omega arith) (refl, own)).1

  child_reports-IsOwn :
      (reports : List (ℤ × WaitStatus)) (s : Spooler P)
      → ArePids reports
      → IsOwn s
      → IsOwn (child_reports reports s)
  unfolding child_reports
  child_reports-IsOwn [] s children own = own
  child_reports-IsOwn ((pid, st) ∷ rest) s (child, children) own =
      child_reports-IsOwn rest (child_report pid st s) children
        (child_report-IsOwn pid st s child own)

  pub updates-IsOwn :
      (reports : List (ℤ × WaitStatus)) (s : Spooler P)
      → ArePids reports
      → IsOwn s
      → IsOwn (handle_child_status_updates reports s)
  unfolding handle_child_status_updates
  updates-IsOwn reports s children own =
      let s₁ : Spooler P = record s { child_signal_received = false } in
      if_elim IsOwn s.child_signal_received _ s
        (try_scheduling_jobs-IsOwn (child_reports reports s₁)
          (child_reports-IsOwn reports s₁ children own))
        own
