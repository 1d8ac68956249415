-- ===== src/Registered.antt =====
-- What holds of the name and the type of each printer when it is registered, over the parts of the
-- program: only add_printer_to_system writes them.
pub mod Commands
pub mod Session
use posix_printer_spooler.Prelude.{
  ℕ, zero, suc, ◌<◌, ◌≡◌, refl, ap, ◌≢◌, inl, inr, ℤ, pos, negsuc, int_eq, Option, none, some, List,
  [], ◌∷◌, arith, leb, ltb, Bool-cases, ℕ_discrete, if_elim, if_then_elim, for_range-keeps,
}
use posix_printer_spooler.Text.{Text}
use posix_printer_spooler.Platform.{
  Platform, sigcont, FileType, WaitStatus, stopped, continued, exited, signaled,
}
use posix_printer_spooler.Spooler.{
  Spooler, Printer, PrinterStatus, JobStatus, created, running, paused, finished, aborted, deleted,
  set_printer_status, kill_group,
}
use posix_printer_spooler.Jobs.{schedule_job, try_scheduling_jobs, queue_job, submit_print_job}
use posix_printer_spooler.Jobs.Scheduling.{
  Round, skipped, not_forked, started, Round-Frame, schedule_job-Round,
}
use posix_printer_spooler.Jobs.Submission.{submit_cases}
use posix_printer_spooler.Control.{
  free_printer, report_printer, terminate, cancel_slot, cancel_job, pause_job, resume_job,
}
use posix_printer_spooler.Control.Signals.{pause_job-Signals, resume_job-Signals}
use posix_printer_spooler.Expiry.{
  remove_job, is_expired, expiry_round, expiry_loop, delete_expired_jobs_if_needed,
}
use posix_printer_spooler.Expiry.Compaction.{remove_job-Removed}
use posix_printer_spooler.Children.{
  release_printer, update_job, match_job, child_report, child_reports, handle_child_status_updates,
}

module _ {P : Platform} (R : Option Text → Option FileType → Type 0) where
  -- `R` holds of the name and the type of each registered printer.
  abbrev pub AreRegistered : Spooler P → Type 0
  AreRegistered s =
      (k : ℕ)
      → k < s.number_of_registered_printers
      → R (s.printer_registry k).name (s.printer_registry k).type

  -- The names and the types are the same.
  pub same-AreRegistered :
      (s r : Spooler P)
      → r.number_of_registered_printers ≡ s.number_of_registered_printers
      → ((k : ℕ)
          → ((r.printer_registry k).name ≡ (s.printer_registry k).name)
            × ((r.printer_registry k).type ≡ (s.printer_registry k).type))
      → AreRegistered s
      → AreRegistered r
  same-AreRegistered s r count same all k h = rw ((same k).0, (same k).1) (all k (rw count at h))

  pub unmoved-AreRegistered :
      (s r : Spooler P)
      → r.number_of_registered_printers ≡ s.number_of_registered_printers
      → r.printer_registry ≡ s.printer_registry
      → AreRegistered s
      → AreRegistered r
  unmoved-AreRegistered s r count same =
      same-AreRegistered s r count (λ k. (ap (λ f. (f k).name) same, ap (λ f. (f k).type) same))

  pub status-AreRegistered :
      (p : ℕ) (st : PrinterStatus) (s : Spooler P)
      → AreRegistered s
      → AreRegistered (set_printer_status p st s)
  status-AreRegistered p st s =
      same-AreRegistered s (set_printer_status p st s) refl (λ k. (ground arith, ground arith))

  Round-AreRegistered : (i : ℕ) (s r : Spooler P) → Round i s r → AreRegistered s → AreRegistered r
  Round-AreRegistered i s r (skipped _ e) all = rw e all
  Round-AreRegistered i s r (not_forked _ _ u) all =
      unmoved-AreRegistered s r u.frame.same_printers u.registry all
  Round-AreRegistered i s r (started t p _ _ _ st) all =
      same-AreRegistered s r st.frame.same_printers
        (λ k. elim (ℕ_discrete k p) [
          | yes same ↦
              rw same
                (ap (λ (x : Printer). x.name) st.printer, ap (λ (x : Printer). x.type) st.printer)
          | no ne ↦
              let kept = st.other_printers k ne in
              (ap (λ (x : Printer). x.name) kept, ap (λ (x : Printer). x.type) kept)
        ])
        all

  pub try_scheduling_jobs-AreRegistered :
      (s : Spooler P) → AreRegistered s → AreRegistered (try_scheduling_jobs s)
  unfolding try_scheduling_jobs
  try_scheduling_jobs-AreRegistered s =
      for_range-keeps AreRegistered schedule_job
        (λ i r. Round-AreRegistered i r (schedule_job i r) (schedule_job-Round i r)) s.job_count 0 s

  pub submit-AreRegistered :
      (f : Text) (s : Spooler P)
      → AreRegistered s
      → AreRegistered (submit_print_job (some f) none s).1
  unfolding queue_job
  submit-AreRegistered f s all =
      submit_cases (λ r. AreRegistered r.1) f none s (λ _. all)
        (λ t room known e. try_scheduling_jobs-AreRegistered _ all)
        (λ t p room known e accepted. absurd (ground (arith, e)))

  free_printer-AreRegistered :
      (p : Option ℕ) (s : Spooler P) → AreRegistered s → AreRegistered (free_printer p s)
  free_printer-AreRegistered none s all = all
  free_printer-AreRegistered (some p) s all = status-AreRegistered p _ s all

  report_printer-AreRegistered :
      (p : Option ℕ) (s : Spooler P) → AreRegistered s → AreRegistered (report_printer p s)
  report_printer-AreRegistered none s all = all
  report_printer-AreRegistered (some p) s all = all

  terminate-AreRegistered :
      (i : ℕ) (s : Spooler P) → AreRegistered s → AreRegistered (terminate i s).1
  terminate-AreRegistered i s all =
      let target = (s.job_spool i).target_printer in
      report_printer-AreRegistered target _ (free_printer-AreRegistered target _ all)

  cancel_slot-AreRegistered :
      (i : ℕ) (s : Spooler P)
      → AreRegistered s
      → (st : JobStatus) → (s.job_spool i).status ≡ st
      → AreRegistered (cancel_slot i s).1
  unfolding cancel_slot
  cancel_slot-AreRegistered i s all created e = rw (cancel_slot, e) all
  cancel_slot-AreRegistered i s all running e =
      rw (cancel_slot, e) (terminate-AreRegistered i s all)
  cancel_slot-AreRegistered i s all paused e =
      rw (cancel_slot, e)
        (terminate-AreRegistered i (kill_group (s.job_spool i).pgid sigcont s).1 all)
  cancel_slot-AreRegistered i s all finished e = rw (cancel_slot, e) all
  cancel_slot-AreRegistered i s all aborted e = rw (cancel_slot, e) all
  cancel_slot-AreRegistered i s all deleted e = rw (cancel_slot, e) all

  pub cancel-AreRegistered :
      (job_id : ℤ) (s : Spooler P) → AreRegistered s → AreRegistered (cancel_job job_id s).1
  unfolding cancel_job
  cancel-AreRegistered (negsuc n) s all = all
  cancel-AreRegistered (pos n) s all =
      if_elim (λ (r : ℤ × Spooler P). AreRegistered r.1) (leb s.job_count n) _ _ all
        (cancel_slot-AreRegistered n s all _ refl)

  pub pause-AreRegistered :
      (job_id : ℤ) (s : Spooler P) → AreRegistered s → AreRegistered (pause_job job_id s).1
  pause-AreRegistered job_id s =
      let same = (pause_job-Signals job_id s).tables in
      unmoved-AreRegistered s (pause_job job_id s).1 same.same_printers same.same_registry

  pub resume-AreRegistered :
      (job_id : ℤ) (s : Spooler P) → AreRegistered s → AreRegistered (resume_job job_id s).1
  resume-AreRegistered job_id s =
      let same = (resume_job-Signals job_id s).tables in
      unmoved-AreRegistered s (resume_job job_id s).1 same.same_printers same.same_registry

  expiry_loop-AreRegistered :
      (fuel now i : ℕ) (s : Spooler P) → AreRegistered s → AreRegistered (expiry_loop fuel now i s)
  unfolding expiry_loop expiry_round
  expiry_loop-AreRegistered zero now i s all = all
  expiry_loop-AreRegistered (suc fuel) now i s all =
      if_then_elim AreRegistered (ltb i s.job_count) _ _
        (λ below.
          let gone = remove_job-Removed i s (ground (arith, below)) in
          expiry_loop-AreRegistered fuel now (expiry_round now i s).0 (expiry_round now i s).1 (
            if_elim (λ (r : ℕ × Spooler P). AreRegistered r.1) (is_expired now (s.job_spool i)) _ _
              (unmoved-AreRegistered s (remove_job i s) gone.same_printers gone.same_registry all)
              all))
        all

  pub delete_expired-AreRegistered :
      (s : Spooler P) → AreRegistered s → AreRegistered (delete_expired_jobs_if_needed s)
  unfolding delete_expired_jobs_if_needed
  delete_expired-AreRegistered s all =
      expiry_loop-AreRegistered s.job_count (P.time s.world).0 0 _ all

  release_printer-AreRegistered :
      (p : Option ℕ) (s : Spooler P) → AreRegistered s → AreRegistered (release_printer p s)
  release_printer-AreRegistered none s all = all
  release_printer-AreRegistered (some p) s all = status-AreRegistered p _ s all

  update_job-AreRegistered :
      (st : WaitStatus) (i : ℕ) (s : Spooler P)
      → AreRegistered s
      → AreRegistered (update_job st i s)
  unfolding update_job
  update_job-AreRegistered stopped i s all = all
  update_job-AreRegistered continued i s all = all
  update_job-AreRegistered (exited code) i s all =
      release_printer-AreRegistered (s.job_spool i).target_printer _ all
  update_job-AreRegistered (signaled signum) i s all =
      release_printer-AreRegistered (s.job_spool i).target_printer _ all

  child_reports-AreRegistered :
      (reports : List (ℤ × WaitStatus)) (s : Spooler P)
      → AreRegistered s
      → AreRegistered (child_reports reports s)
  unfolding child_reports child_report match_job
  child_reports-AreRegistered [] s all = all
  child_reports-AreRegistered ((pid, st) ∷ rest) s all =
      child_reports-AreRegistered rest (child_report pid st s) (
        for_range-keeps AreRegistered (match_job pid st)
          (λ i r a.
            if_elim AreRegistered (int_eq (r.job_spool i).pgid pid) _ r
              (update_job-AreRegistered st i r a) a)
          s.job_count 0 s all)

  pub updates-AreRegistered :
      (reports : List (ℤ × WaitStatus)) (s : Spooler P)
      → AreRegistered s
      → AreRegistered (handle_child_status_updates reports s)
  unfolding handle_child_status_updates
  updates-AreRegistered reports s all =
      if_elim AreRegistered s.child_signal_received _ s
        (try_scheduling_jobs-AreRegistered _ (child_reports-AreRegistered reports _ all)) all
