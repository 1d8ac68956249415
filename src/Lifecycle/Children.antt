-- ===== src/Lifecycle/Children.antt =====
-- The reports on children as moves of the job table.
use posix_printer_spooler.Prelude.{
  ℕ, suc, ℤ, int_eq, int_eq_iff, ◌<◌, ◌≡◌, refl, ◌∙◌, inl, inr, false, List, [], ◌∷◌, arith,
  Bool-cases, for_range-within, if_elim,
}
use posix_printer_spooler.Platform.{Platform, WaitStatus, stopped, continued, exited, signaled}
use posix_printer_spooler.Spooler.{Spooler}
use posix_printer_spooler.Jobs.Consistency.{IsActive}
use posix_printer_spooler.Children.{
  update_job, match_job, child_report, child_reports, handle_child_status_updates,
}
use posix_printer_spooler.Children.Consistency.{match_job-others, ActiveFrom, Accurate}
use posix_printer_spooler.Lifecycle.{
  Advance, switches, finishes, aborts, Advanced, advances, Moves, here, next, Moves-trans, still,
}
use posix_printer_spooler.Lifecycle.Jobs.{try_scheduling_jobs-Moves}

module _ {P : Platform} where
  update_job-Advance :
      (st : WaitStatus) (i : ℕ) (s : Spooler P)
      → IsActive (s.job_spool i).status
      → Advance (s.job_spool i).status ((update_job st i s).job_spool i).status
  unfolding update_job
  update_job-Advance stopped i s a = switches a (inr (ground arith))
  update_job-Advance continued i s a = switches a (inl (ground arith))
  update_job-Advance (exited code) i s a = finishes a (ground arith)
  update_job-Advance (signaled signum) i s a = aborts a (ground arith)

  update_job-Advanced :
      (st : WaitStatus) (i : ℕ) (s : Spooler P)
      → i < s.job_count
      → IsActive (s.job_spool i).status
      → Advanced i s (update_job st i s)
  unfolding update_job
  update_job-Advanced stopped i s below a = record {
    below = below;
    same_jobs = refl;
    moved = update_job-Advance stopped i s a;
    told = record { more_history = ground arith; same_initialized = refl };
    same_id = ground arith;
    same_path = ground arith;
    others = λ k ne. ground (arith, ne);
  }
  update_job-Advanced continued i s below a = record {
    below = below;
    same_jobs = refl;
    moved = update_job-Advance continued i s a;
    told = record { more_history = ground arith; same_initialized = refl };
    same_id = ground arith;
    same_path = ground arith;
    others = λ k ne. ground (arith, ne);
  }
  update_job-Advanced (exited code) i s below a = record {
    below = below;
    same_jobs = ground arith;
    moved = update_job-Advance (exited code) i s a;
    told = record { more_history = ground arith; same_initialized = ground arith };
    same_id = ground arith;
    same_path = ground arith;
    others = λ k ne. ground (arith, ne);
  }
  update_job-Advanced (signaled signum) i s below a = record {
    below = below;
    same_jobs = ground arith;
    moved = update_job-Advance (signaled signum) i s a;
    told = record { more_history = ground arith; same_initialized = ground arith };
    same_id = ground arith;
    same_path = ground arith;
    others = λ k ne. ground (arith, ne);
  }

  -- After the rounds up to slot `m`.
  record Walked (pid : ℤ) (s : Spooler P) (m : ℕ) (r : Spooler P) : Type 0 where
    count : r.job_count ≡ s.job_count
    moves : Moves s r
    active : ActiveFrom pid m r

  match_job-Walked :
      (pid : ℤ) (st : WaitStatus) (s : Spooler P) (i : ℕ) (r : Spooler P)
      → i < s.job_count
      → Walked pid s i r
      → Walked pid s (suc i) (match_job pid st i r)
  unfolding match_job
  match_job-Walked pid st s i r below d =
      let (same, others) = match_job-others pid st i r in
      record {
        count = same ∙ d.count;
        moves = moves;
        active = λ k l h mine.
            rw (others k (omega arith))
              (d.active k (omega arith) (omega arith) (rw (others k (omega arith)) at mine));
      }
    where
      moves : Moves s (match_job pid st i r)
      moves = elim (Bool-cases (int_eq (r.job_spool i).pgid pid)) [
        | inl hit ↦ rw hit (
            next d.moves (
              advances i (
                update_job-Advanced st i r (omega (arith, d.count))
                  (d.active i (omega arith) (omega (arith, d.count)) ((int_eq_iff _ _).0 hit)))))
        | inr miss ↦ rw miss d.moves
      ]

  child_report-Moves :
      (pid : ℤ) (st : WaitStatus) (s : Spooler P)
      → ActiveFrom pid 0 s
      → Moves s (child_report pid st s)
  unfolding child_report
  child_report-Moves pid st s a =
      let end =
        for_range-within (Walked pid s) (match_job pid st) s.job_count (match_job-Walked pid st s)
          s.job_count 0 s (omega arith) (record { count = refl; moves = here; active = a }) in
      end.moves

  child_reports-Moves :
      (reports : List (ℤ × WaitStatus)) (s : Spooler P)
      → Accurate reports s
      → Moves s (child_reports reports s)
  unfolding child_reports
  child_reports-Moves [] s a = here
  child_reports-Moves ((pid, st) ∷ rest) s a =
      Moves-trans (child_report-Moves pid st s a.0)
        (child_reports-Moves rest (child_report pid st s) a.1)

  pub updates-Moves :
      (reports : List (ℤ × WaitStatus)) (s : Spooler P)
      → Accurate reports (record s { child_signal_received = false })
      → Moves s (handle_child_status_updates reports s)
  unfolding handle_child_status_updates
  updates-Moves reports s a =
      let s₁ : Spooler P = record s { child_signal_received = false } in
      if_elim (Moves s) s.child_signal_received _ s
        (Moves-trans (still s s₁ refl refl refl refl)
          (Moves-trans (child_reports-Moves reports s₁ a) (try_scheduling_jobs-Moves _)))
        here
