-- ===== src/Lifecycle/Jobs.antt =====
-- Scheduling, submission, cancellation and expiry as moves of the job table.
use posix_printer_spooler.Prelude.{
  ℕ, zero, suc, ℤ, ◌<◌, ◌≡◌, refl, ◌∙◌, inl, inr, true, none, some, arith, ltb, ltb→lt, Bool-cases,
  for_range-within, success, int_eq, int_eq_iff,
}
use posix_printer_spooler.Text.{Text}
use posix_printer_spooler.Platform.{FileType, Platform}
use posix_printer_spooler.Spooler.{Spooler, Job, JobStatus, created, aborted, max_jobs}
use posix_printer_spooler.Jobs.{
  register_job, enqueue_job, queue_job, schedule_job, try_scheduling_jobs, submit_print_job,
}
use posix_printer_spooler.Jobs.Scheduling.{
  Round, skipped, not_forked, started, Unstarted, Started, Round-Frame, schedule_job-Round,
}
use posix_printer_spooler.Jobs.Submission.{submit_cases}
use posix_printer_spooler.Control.{cancel_job}
use posix_printer_spooler.Control.Cancel.{cancel-succeeds_iff, cancel_effect, IsCancellable}
use posix_printer_spooler.Expiry.{
  is_expired, expiry_loop, remove_job, delete_expired_jobs_if_needed,
}
use posix_printer_spooler.Expiry.Compaction.{remove_job-Removed}
use posix_printer_spooler.Lifecycle.Rounds.{Reported, schedule_job-Reported}
use posix_printer_spooler.Lifecycle.{
  Advance, starts, is_dropped, aborts, IsOver, Added, Move, rests, assigns, advances, adds, removes,
  still, Moves, here, next, Moves-trans, one-Move,
}

cancelled-Advance : (a b : JobStatus) → IsCancellable a → b ≡ aborted → Advance a b
cancelled-Advance a b (inl waits) e = is_dropped waits e
cancelled-Advance a b (inr active) e = aborts active e

expired-IsOver : (now : ℕ) (j : Job) → is_expired now j ≡ true → IsOver j.status
expired-IsOver now j h = ground (arith, h)

module _ {P : Platform} where
  Unstarted-Move :
      (i : ℕ) (s r : Spooler P)
      → i < s.job_count
      → (s.job_spool i).status ≡ created
      → Unstarted i s r
      → Reported i s r
      → Move s r
  Unstarted-Move i s r below waits u (inl (quiet, same)) = assigns i (record {
    below = below;
    same_jobs = u.frame.same_jobs;
    same_status = same;
    same_id = ground (arith, u.job);
    same_path = ground (arith, u.job);
    others = u.others;
    quiet = quiet;
  })
  Unstarted-Move i s r below waits u (inr (told, runs)) =
      absurd (ground (arith, waits, u.job, runs))

  Started-Move :
      (i p : ℕ) (s r : Spooler P)
      → i < s.job_count
      → (s.job_spool i).status ≡ created
      → Started i p s r
      → Reported i s r
      → Move s r
  Started-Move i p s r below waits st (inl (quiet, same)) =
      absurd (ground (arith, waits, same, st.job_status))
  Started-Move i p s r below waits st (inr (told, runs)) = advances i (record {
    below = below;
    same_jobs = st.frame.same_jobs;
    moved = starts waits runs;
    told = rw runs told;
    same_id = st.job_id;
    same_path = st.job_path;
    others = st.others;
  })

  Round-Move : (i : ℕ) (s r : Spooler P) → i < s.job_count → Round i s r → Reported i s r → Move s r
  Round-Move i s r below (skipped _ e) told =
      rw e (rests refl refl (record { same_history = refl; stays_on = λ up. up }))
  Round-Move i s r below (not_forked waits _ u) told = Unstarted-Move i s r below waits u told
  Round-Move i s r below (started t p waits _ _ st) told = Started-Move i p s r below waits st told

  -- The number of jobs is as before, and the table has moved.
  Scheduled : Spooler P → ℕ → Spooler P → Type 0
  Scheduled s m r = (r.job_count ≡ s.job_count) × Moves s r

  pub try_scheduling_jobs-Moves : (s : Spooler P) → Moves s (try_scheduling_jobs s)
  unfolding try_scheduling_jobs Scheduled
  try_scheduling_jobs-Moves s =
      (for_range-within (Scheduled s) schedule_job s.job_count
        (λ i r below (same, m).
          let round = schedule_job-Round i r in
          (
            (Round-Frame i r _ round).same_jobs ∙ same,
            next m (Round-Move i r _ (omega (arith, same)) round (schedule_job-Reported i r)),
          ))
        s.job_count 0 s (omega arith) (refl, here)).1

  enqueued-Added :
      (file_path : Text) (t : FileType) (s : Spooler P)
      → s.job_count < max_jobs
      → Added s (enqueue_job s.job_count (register_job file_path t none s))
  enqueued-Added file_path t s room = record {
    room = room;
    more = refl;
    id = ground arith;
    path = ground arith;
    waits = ground arith;
    others = λ k ne. ground (arith, ne);
    told = ground arith;
    same_initialized = refl;
  }

  pub submit-Moves :
      (file_path : Text) (s : Spooler P) → Moves s (submit_print_job (some file_path) none s).1
  unfolding queue_job
  submit-Moves file_path s =
      submit_cases (λ r. Moves s r.1) file_path none s (λ _. here)
        (λ t room _ _.
          next
            (Moves-trans (one-Move s _ (adds (enqueued-Added file_path t s room)))
              (try_scheduling_jobs-Moves _))
            (rests refl refl (record { same_history = refl; stays_on = λ up. up })))
        (λ t p _ _ e. absurd (ground arith))

  pub cancel-Moves : (job_id : ℤ) (s : Spooler P) → Moves s (cancel_job job_id s).1
  cancel-Moves job_id s = elim (Bool-cases (int_eq (cancel_job job_id s).0 success)) [
    | inl won ↦
        let (i, e, below, was) = (cancel-succeeds_iff job_id s).0.0 ((int_eq_iff _ _).0 won) in
        let d = cancel_effect i s below was in
        rw e (
          one-Move s _ (
            advances i (record {
              below = below;
              same_jobs = d.same_jobs;
              moved = cancelled-Advance _ _ was d.job_status;
              told = rw d.job_status d.told;
              same_id = d.job_rest.0;
              same_path = d.job_rest.3;
              others = d.others;
            })))
    | inr lost ↦
        rw
          ((cancel-succeeds_iff job_id s).1
            (λ e. ground (arith, (int_eq_iff (cancel_job job_id s).0 success).1 e)))
          here
  ]

  expiry_loop-Moves : (fuel now i : ℕ) (s : Spooler P) → Moves s (expiry_loop fuel now i s)
  unfolding expiry_loop
  expiry_loop-Moves zero now i s = here
  expiry_loop-Moves (suc fuel) now i s = elim (Bool-cases (ltb i s.job_count)) [
    | inr done ↦ rw done here
    | inl more ↦ rw more (elim (Bool-cases (is_expired now (s.job_spool i))) [
      | inl gone ↦ rw gone (
          Moves-trans
            (one-Move s (remove_job i s) (
              removes i (ltb→lt _ _ more) (expired-IsOver now (s.job_spool i) gone)
                (remove_job-Removed i s (ltb→lt _ _ more))))
            (expiry_loop-Moves fuel now i (remove_job i s)))
      | inr keep ↦ rw keep (expiry_loop-Moves fuel now (suc i) s)
    ])
  ]

  pub delete_expired-Moves : (s : Spooler P) → Moves s (delete_expired_jobs_if_needed s)
  unfolding delete_expired_jobs_if_needed
  delete_expired-Moves s =
      Moves-trans (still s (record s { world = (P.time s.world).1 }) refl refl refl refl)
        (expiry_loop-Moves s.job_count (P.time s.world).0 0 _)
