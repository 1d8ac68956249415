-- ===== src/Children/Stale.antt =====
-- A report on a child whose job was cancelled before: its printer may work for another job by then.
use posix_printer_spooler.Prelude.{
  ℕ, suc, ◌<◌, ◌≡◌, refl, ◌≢◌, inl, inr, ℤ, some, ℕ_discrete, arith, int_eq, int_eq_iff, Bool-cases,
  for_range-within,
}
use posix_printer_spooler.Platform.{Platform, signaled}
use posix_printer_spooler.Spooler.{Spooler, idle}
use posix_printer_spooler.Jobs.Consistency.{Holds, IsConsistent}
use posix_printer_spooler.Children.{update_job, match_job, child_report}

module _ {P : Platform} where
  -- The job in slot `i` is of the process `pid`, the one in slot `j` of another, and both are on `p`.
  record Stale (pid : ℤ) (i j p n m : ℕ) (s : Spooler P) : Type 0 where
    count : s.job_count ≡ n
    mine : (s.job_spool i).pgid ≡ pid
    target : (s.job_spool i).target_printer ≡ some p
    holder : Holds s j p
    other : (s.job_spool j).pgid ≢ pid
    freed : i < m → (s.printer_registry p).status ≡ idle

  update-Stale :
      (pid : ℤ) (signum i j p n k : ℕ) (s : Spooler P)
      → (s.job_spool k).pgid ≡ pid
      → Stale pid i j p n k s
      → Stale pid i j p n (suc k) (update_job (signaled signum) k s)
  unfolding update_job
  update-Stale pid signum i j p n k s hit d = record {
    count = ground (arith, d.count);
    mine = ground (arith, d.mine);
    target = ground (arith, d.target);
    holder = ground (arith, d.holder, d.other);
    other = ground (arith, d.other);
    freed = λ l. ground (arith, d.freed, d.target);
  }

  match-Stale :
      (pid : ℤ) (signum i j p n k : ℕ) (s : Spooler P)
      → k < n
      → Stale pid i j p n k s
      → Stale pid i j p n (suc k) (match_job pid (signaled signum) k s)
  unfolding match_job
  match-Stale pid signum i j p n k s below d = elim (Bool-cases (int_eq (s.job_spool k).pgid pid)) [
    | inl hit ↦ rw hit (update-Stale pid signum i j p n k s ((int_eq_iff _ _).0 hit) d)
    | inr miss ↦ rw miss (record {
      count = d.count;
      mine = d.mine;
      target = d.target;
      holder = d.holder;
      other = d.other;
      freed = λ l. elim (ℕ_discrete i k) [
        | yes same ↦
            ground (arith, miss, (int_eq_iff (s.job_spool k).pgid pid).1 (rw same at d.mine))
        | no ne ↦ d.freed (omega arith)
      ];
    })
  ]

  -- A job was cancelled and keeps its printer and its process group, and the printer was given to
  -- another active job, in a group of its own. Then the report that the cancelled job's process was
  -- killed makes the printer IDLE, while the other job stays active on it. So the invariant of jobs
  -- and printers is broken.
  pub stale_report_breaks :
      (pid : ℤ) (signum i j p : ℕ) (s : Spooler P)
      → i < s.job_count
      → (s.job_spool i).pgid ≡ pid
      → (s.job_spool i).target_printer ≡ some p
      → Holds s j p
      → (s.job_spool j).pgid ≢ pid
      → Holds (child_report pid (signaled signum) s) j p
        × (((child_report pid (signaled signum) s).printer_registry p).status ≡ idle)
        × (¬ IsConsistent (child_report pid (signaled signum) s))
  unfolding child_report
  stale_report_breaks pid signum i j p s below mine target holder other =
      let end =
        for_range-within (Stale pid i j p s.job_count) (match_job pid (signaled signum)) s.job_count
          (match-Stale pid signum i j p s.job_count) s.job_count 0 s (omega arith)
          (record {
            count = refl;
            mine = mine;
            target = target;
            holder = holder;
            other = other;
            freed = λ l. absurd (omega arith);
          }) in
      (end.holder, end.freed (omega arith), λ c. ground (arith, end.freed, c.held j p end.holder))
