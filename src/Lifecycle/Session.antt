-- ===== src/Lifecycle/Session.antt =====
-- Whole runs as moves of the job table, and the bounds that follow.
use posix_printer_spooler.Prelude.{
  ℕ, ◌≤◌, ◌<◌, ◌≡◌, ◌≢◌, refl, sym, ◌∙◌, true, List, Option, none, arith, for_range, ℕ_discrete,
  if_cases_elim,
}
use posix_printer_spooler.Text.{Text}
use posix_printer_spooler.Platform.{Platform}
use posix_printer_spooler.Spooler.{Spooler, start, max_jobs, JobStatus, deleted, Job}
use posix_printer_spooler.Printers.{printer_manager_initialize, printer_manager_cleanup}
use posix_printer_spooler.Jobs.{job_manager_initialize}
use posix_printer_spooler.Children.{sigchld_handler}
use posix_printer_spooler.Cli.{Input, initialize, run_main}
use posix_printer_spooler.Cli.Runs.{
  lines_in, at_prompt, AnyLine, any_lines, TameInputs, IsKept, run_main-keeps_on,
}
use posix_printer_spooler.Cli.Session.{AccurateNow}
use posix_printer_spooler.Expiry.Compaction.{Removed}
use posix_printer_spooler.Expiry.Consistency.{origin, from_origin, origin-lt}
use posix_printer_spooler.Lifecycle.{
  Advance, starts, is_dropped, switches, finishes, aborts, Assigned, Advanced, Added, Move, rests,
  assigns, repeats, advances, adds, removes, Moves, Moves-trans, one-Move, Moves-keep,
  Moves-initialized, still,
}
use posix_printer_spooler.Lifecycle.Jobs.{delete_expired-Moves}
use posix_printer_spooler.Lifecycle.Children.{updates-Moves}
use posix_printer_spooler.Lifecycle.Commands.{handle_user_command-Moves}

-- No job advances to DELETED.
Advance-deleted : (a b : JobStatus) → Advance a b → b ≢ deleted
Advance-deleted a b (starts _ e) d = ground (arith, e, d)
Advance-deleted a b (is_dropped _ e) d = ground (arith, e, d)
Advance-deleted a b (switches _ active) d = ground (arith, active, d)
Advance-deleted a b (finishes _ e) d = ground (arith, e, d)
Advance-deleted a b (aborts _ e) d = ground (arith, e, d)

-- What a job of the table is like: its id is the number of a slot, it has a path, and its slot has
-- not been cleared.
pub record IsListed (j : Job) : Type 0 where
  pub id : j.id < max_jobs
  pub path : j.input_file_path ≢ none
  pub status : j.status ≢ deleted

module _ {P : Platform} where
  -- The table fits its array, and its jobs are sound.
  pub record IsTable (s : Spooler P) : Type 0 where
    pub bounded : s.job_count ≤ max_jobs
    pub listed : (k : ℕ) → k < s.job_count → IsListed (s.job_spool k)

  Advanced-IsTable : (i : ℕ) (s r : Spooler P) → Advanced i s r → IsTable s → IsTable r
  Advanced-IsTable i s r d h = record {
    bounded = rw d.same_jobs h.bounded;
    listed = λ k below. elim (ℕ_discrete k i) [
      | no ne ↦ rw (d.others k ne) (h.listed k (rw d.same_jobs at below))
      | yes same ↦
          let was = h.listed i d.below in
          rw same (record {
            id = rw d.same_id was.id;
            path = λ e. was.path (sym d.same_path ∙ e);
            status = Advance-deleted _ _ d.moved;
          })
    ];
  }

  Assigned-IsTable : (i : ℕ) (s r : Spooler P) → Assigned i s r → IsTable s → IsTable r
  Assigned-IsTable i s r d h = record {
    bounded = rw d.same_jobs h.bounded;
    listed = λ k below. elim (ℕ_discrete k i) [
      | no ne ↦ rw (d.others k ne) (h.listed k (rw d.same_jobs at below))
      | yes same ↦
          let was = h.listed i d.below in
          rw same (record {
            id = rw d.same_id was.id;
            path = λ e. was.path (sym d.same_path ∙ e);
            status = λ e. was.status (sym d.same_status ∙ e);
          })
    ];
  }

  Added-IsTable : (s r : Spooler P) → Added s r → IsTable s → IsTable r
  Added-IsTable s r d h = record {
    bounded = rw d.more d.room;
    listed = λ k below. elim (ℕ_discrete k s.job_count) [
      | no ne ↦ rw (d.others k ne) (h.listed k (omega (arith, rw d.more at below)))
      | yes same ↦
          rw same (record {
            id = rw d.id d.room;
            path = d.path;
            status = λ e. ground (arith, d.waits, e);
          })
    ];
  }

  Removed-IsTable : (i : ℕ) (s r : Spooler P) → Removed i s r → IsTable s → IsTable r
  Removed-IsTable i s r d h = record {
    bounded = omega (arith, d.fewer, h.bounded);
    listed = λ k below.
        rw (from_origin i s r d k below) (h.listed (origin i k) (origin-lt i s r d k below));
  }

  Move-IsTable : (s r : Spooler P) → Move s r → IsTable s → IsTable r
  Move-IsTable s r (rests count spool _) h = record {
    bounded = rw count h.bounded;
    listed = rw (count, spool) h.listed;
  }
  Move-IsTable s r (assigns i d) h = Assigned-IsTable i s r d h
  Move-IsTable s r (repeats i _ count spool _) h = record {
    bounded = rw count h.bounded;
    listed = rw (count, spool) h.listed;
  }
  Move-IsTable s r (advances i d) h = Advanced-IsTable i s r d h
  Move-IsTable s r (adds d) h = Added-IsTable s r d h
  Move-IsTable s r (removes i _ _ d) h = Removed-IsTable i s r d h

  -- The first initialization empties two empty tables.
  start-Moves :
      (t : P.Table) (w : P.World) → Moves (start {P = P} t w) (initialize (start {P = P} t w))
  unfolding initialize printer_manager_initialize printer_manager_cleanup job_manager_initialize
      for_range
  start-Moves t w =
      one-Move (start {P = P} t w) (initialize (start {P = P} t w))
        (rests refl refl (record { same_history = refl; stays_on = λ up. refl }))

  -- What a run keeps: the table has moved, and is not initialized again.
  Moved : Spooler P → Spooler P → Type 0
  Moved s r = Moves s r × (r.initialized ≡ true)

  Moved-trans : (s r r' : Spooler P) → Moved s r → Moves r r' → Moved s r'
  unfolding Moved
  Moved-trans s r r' (m, up) m' = (Moves-trans m m', Moves-initialized m' up)

  initialize-Moved : (s r : Spooler P) → Moved s r → Moved s (initialize r)
  unfolding Moved initialize
  initialize-Moved s r (m, up) =
      if_cases_elim (Moved s) r.initialized _ _ (λ _. (m, up))
        (λ off. absurd (ground (arith, up, off)))

  Moved-IsKept : (s : Spooler P) → IsKept AnyLine AccurateNow (Moved s)
  unfolding sigchld_handler
  Moved-IsKept s = record {
    initialized = initialize-Moved s;
    signalled = λ r m. Moved-trans s r _ m (still r _ refl refl refl refl);
    quitting = λ r m. Moved-trans s r _ m (still r _ refl refl refl refl);
    refused = λ l message r m. Moved-trans s r _ m (still r _ refl refl refl refl);
    command = λ cmd args r _ m. Moved-trans s r _ m (handle_user_command-Moves cmd args r);
    expiring = λ r m. Moved-trans s r _ m (delete_expired-Moves r);
    reported = λ reports r accurate m. Moved-trans s r _ m (updates-Moves reports r accurate);
  }

  -- A whole run of the program, from its start, on any file, or none, and then on the user's inputs,
  -- where each report of `waitpid` is about active jobs, is a sequence of moves of the job table,
  -- and the events sf_job_created, sf_job_status and sf_job_deleted of the run, all of them and in
  -- their order, tell the moves: a job comes in behind the others, with a path, and is told to have
  -- come and to be CREATED; a CREATED job becomes RUNNING or ABORTED, and a RUNNING or PAUSED one
  -- becomes RUNNING, PAUSED, FINISHED or ABORTED, told by one event with its id and new status;
  -- `jobs` repeats the id and the status of a job in the table; and only a FINISHED or ABORTED job
  -- is removed, told by one event with its id, while the others keep their order. The moves without
  -- such an event change the number of jobs, and the status, the id and the path of a job, nowhere.
  pub run_main-Moves :
      (file : Option Text) (inputs : List Input) (t : P.Table) (w : P.World)
      → TameInputs AnyLine AccurateNow inputs (at_prompt file (start {P = P} t w))
      → Moves (start {P = P} t w) (run_main file inputs (start {P = P} t w))
  unfolding Moved initialize
  run_main-Moves file inputs t w accurate =
      (run_main-keeps_on AnyLine AccurateNow (Moved (start t w)) (Moved-IsKept (start t w)) file
        inputs t w (start-Moves t w, refl) (any_lines AccurateNow (lines_in file) _) accurate).0

  -- After a whole run of the program, from its start, on any file, or none, and then on the user's
  -- inputs, where each report of `waitpid` is about active jobs, the table holds at most 64 jobs, each
  -- with an id below 64 and a path, and none in a cleared slot.
  pub run_main-IsTable :
      (file : Option Text) (inputs : List Input) (t : P.Table) (w : P.World)
      → TameInputs AnyLine AccurateNow inputs (at_prompt file (start {P = P} t w))
      → IsTable (run_main file inputs (start {P = P} t w))
  run_main-IsTable file inputs t w accurate =
      Moves-keep IsTable Move-IsTable (run_main-Moves file inputs t w accurate)
        (record { bounded = omega arith; listed = λ k h. absurd (omega arith) })
