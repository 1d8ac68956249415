-- ===== src/Children/Consistency.antt =====
-- handle_child_status_updates keeps the invariant while its reports are about active jobs.
use posix_printer_spooler.Prelude.{
  ℕ, suc, ◌≤◌, ◌<◌, ◌≡◌, refl, ap, ◌∙◌, ◌≢◌, inl, inr, ℤ, false, List, [], ◌∷◌, arith, int_eq,
  int_eq_iff, ℕ_discrete, for_range-within, Bool-cases, if_elim,
}
use posix_printer_spooler.Platform.{Platform, WaitStatus, stopped, continued, exited, signaled}
use posix_printer_spooler.Spooler.{Spooler}
use posix_printer_spooler.Jobs.Consistency.{
  IsActive, Holds, IsPlaced, IsConsistent, renamed-IsConsistent, same-IsConsistent,
  try_scheduling_jobs-IsConsistent,
}
use posix_printer_spooler.Jobs.Ending.{Ended, Ended-IsConsistent}
use posix_printer_spooler.Children.{
  update_job, match_job, child_report, child_reports, handle_child_status_updates,
}

module _ {P : Platform} where
  exited-Ended :
      (code i : ℕ) (s : Spooler P)
      → IsActive (s.job_spool i).status
      → Ended i s (update_job (exited code) i s)
  unfolding update_job
  exited-Ended code i s a = record {
    same_jobs = ground arith;
    same_printers = ground arith;
    over = ground arith;
    others = λ k ne. ground arith;
    untouched = λ p h. ground arith;
  }

  signaled-Ended :
      (signum i : ℕ) (s : Spooler P)
      → IsActive (s.job_spool i).status
      → Ended i s (update_job (signaled signum) i s)
  unfolding update_job
  signaled-Ended signum i s a = record {
    same_jobs = ground arith;
    same_printers = ground arith;
    over = ground arith;
    others = λ k ne. ground arith;
    untouched = λ p h. ground arith;
  }

  -- An active job that stays active, with its printer.
  record Switched (i : ℕ) (s r : Spooler P) : Type 0 where
    same_jobs : r.job_count ≡ s.job_count
    same_printers : r.number_of_registered_printers ≡ s.number_of_registered_printers
    same_registry : r.printer_registry ≡ s.printer_registry
    target : (r.job_spool i).target_printer ≡ (s.job_spool i).target_printer
    others : (k : ℕ) → k ≢ i → r.job_spool k ≡ s.job_spool k

  Switched-Holds :
      (i : ℕ) (s r : Spooler P)
      → IsActive (s.job_spool i).status
      → Switched i s r
      → (k p : ℕ) → Holds r k p
      → Holds s k p
  Switched-Holds i s r a d k p (h, b, e) = elim (ℕ_discrete k i) [
    | yes same ↦
        (ground (arith, d.same_jobs), rw same a, rw same (ground (arith, rw same at e, d.target)))
    | no ne ↦ (ground (arith, d.same_jobs), rw (d.others k ne) at b, rw (d.others k ne) at e)
  ]

  Switched-IsPlaced :
      (i : ℕ) (s r : Spooler P)
      → IsActive (s.job_spool i).status
      → Switched i s r
      → IsConsistent s
      → (k : ℕ) → IsPlaced r k
  Switched-IsPlaced i s r a d c k h b n = elim (ℕ_discrete k i) [
    | yes same ↦
        c.placed i (ground (arith, d.same_jobs, ap suc same)) a
          (ground (arith, rw same at n, d.target))
    | no ne ↦
        c.placed k (ground (arith, d.same_jobs)) (rw (d.others k ne) at b) (rw (d.others k ne) at n)
  ]

  Switched-IsConsistent :
      (i : ℕ) (s r : Spooler P)
      → IsActive (s.job_spool i).status
      → Switched i s r
      → IsConsistent s
      → IsConsistent r
  Switched-IsConsistent i s r a d c =
      renamed-IsConsistent (λ k. k) s r (λ j k e. e) (ground (arith, d.same_jobs, c.bounded))
        (Switched-IsPlaced i s r a d c) (Switched-Holds i s r a d)
        (λ k q h b. rw (d.same_printers, d.same_registry) b) c

  update_job-IsConsistent :
      (st : WaitStatus) (i : ℕ) (s : Spooler P)
      → i < s.job_count
      → IsActive (s.job_spool i).status
      → IsConsistent s
      → IsConsistent (update_job st i s)
  unfolding update_job
  update_job-IsConsistent stopped i s h a c =
      Switched-IsConsistent i s _ a
        (record {
          same_jobs = refl;
          same_printers = refl;
          same_registry = refl;
          target = ground arith;
          others = λ k ne. ground arith;
        })
        c
  update_job-IsConsistent continued i s h a c =
      Switched-IsConsistent i s _ a
        (record {
          same_jobs = refl;
          same_printers = refl;
          same_registry = refl;
          target = ground arith;
          others = λ k ne. ground arith;
        })
        c
  update_job-IsConsistent (exited code) i s h a c =
      Ended-IsConsistent i s _ h (exited-Ended code i s a) c
  update_job-IsConsistent (signaled signum) i s h a c =
      Ended-IsConsistent i s _ h (signaled-Ended signum i s a) c

  pub match_job-others :
      (pid : ℤ) (st : WaitStatus) (i : ℕ) (s : Spooler P)
      → ((match_job pid st i s).job_count ≡ s.job_count)
        × ((k : ℕ) → k ≢ i → (match_job pid st i s).job_spool k ≡ s.job_spool k)
  unfolding match_job
  match_job-others pid stopped i s = (ground arith, λ k ne. ground arith)
  match_job-others pid continued i s = (ground arith, λ k ne. ground arith)
  match_job-others pid (exited code) i s = (ground arith, λ k ne. ground arith)
  match_job-others pid (signaled signum) i s = (ground arith, λ k ne. ground arith)

  -- The jobs from slot `m` on that the process `pid` belongs to are active.
  abbrev pub ActiveFrom : ℤ → ℕ → Spooler P → Type 0
  ActiveFrom pid m s =
      (k : ℕ)
      → m ≤ k
      → k < s.job_count
      → (s.job_spool k).pgid ≡ pid
      → IsActive (s.job_spool k).status

  record Matched (pid : ℤ) (n m : ℕ) (s : Spooler P) : Type 0 where
    count : s.job_count ≡ n
    consistent : IsConsistent s
    active : ActiveFrom pid m s

  match_job-Matched :
      (pid : ℤ) (st : WaitStatus) (n i : ℕ) (s : Spooler P)
      → i < n
      → Matched pid n i s
      → Matched pid n (suc i) (match_job pid st i s)
  unfolding match_job
  match_job-Matched pid st n i s h d =
      let (same, others) = match_job-others pid st i s in
      record {
        count = same ∙ d.count;
        consistent = consistent;
        active = λ k l below mine.
            rw (others k (omega arith))
              (d.active k (omega arith) (omega arith) (rw (others k (omega arith)) at mine));
      }
    where
      consistent : IsConsistent (match_job pid st i s)
      consistent = elim (Bool-cases (int_eq (s.job_spool i).pgid pid)) [
        | inl hit ↦ rw hit (
            update_job-IsConsistent st i s (omega (arith, d.count))
              (d.active i (omega arith) (omega (arith, d.count)) ((int_eq_iff _ _).0 hit))
              d.consistent)
        | inr miss ↦ rw miss d.consistent
      ]

  -- A report on a process whose jobs are active keeps the invariant.
  pub child_report-IsConsistent :
      (pid : ℤ) (st : WaitStatus) (s : Spooler P)
      → ActiveFrom pid 0 s
      → IsConsistent s
      → IsConsistent (child_report pid st s)
  unfolding child_report
  child_report-IsConsistent pid st s a c =
      let end =
        for_range-within (Matched pid s.job_count) (match_job pid st) s.job_count
          (match_job-Matched pid st s.job_count) s.job_count 0 s (omega arith)
          (record { count = refl; consistent = c; active = a }) in
      end.consistent

  -- Each report is about a process whose jobs are active when it is read.
  abbrev pub Accurate : List (ℤ × WaitStatus) → Spooler P → Type 0
  Accurate [] s = Unit
  Accurate ((pid, st) ∷ rest) s = ActiveFrom pid 0 s × Accurate rest (child_report pid st s)

  child_reports-IsConsistent :
      (reports : List (ℤ × WaitStatus)) (s : Spooler P)
      → Accurate reports s
      → IsConsistent s
      → IsConsistent (child_reports reports s)
  unfolding child_reports
  child_reports-IsConsistent [] s a c = c
  child_reports-IsConsistent ((pid, st) ∷ rest) s a c =
      child_reports-IsConsistent rest (child_report pid st s) a.1
        (child_report-IsConsistent pid st s a.0 c)

  -- While every report is about a process whose jobs are active when it is read, the handling of the
  -- reports, with the scheduling behind it, keeps the invariant.
  pub updates-IsConsistent :
      (reports : List (ℤ × WaitStatus)) (s : Spooler P)
      → Accurate reports (record s { child_signal_received = false })
      → IsConsistent s
      → IsConsistent (handle_child_status_updates reports s)
  unfolding handle_child_status_updates
  updates-IsConsistent reports s a c =
      let s₁ : Spooler P = record s { child_signal_received = false } in
      if_elim IsConsistent s.child_signal_received _ s
        (try_scheduling_jobs-IsConsistent (child_reports reports s₁)
          (child_reports-IsConsistent reports s₁ a (same-IsConsistent s s₁ refl refl refl refl c)))
        c
