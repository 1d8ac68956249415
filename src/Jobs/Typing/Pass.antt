-- ===== src/Jobs/Typing/Pass.antt =====
-- A whole scheduling pass: each pipeline against the state in which the pass begins.
use mathlib.Core.Path.{ap₂}
use posix_printer_spooler.Prelude.{
  ℕ, suc, ◌≤◌, ◌<◌, ◌≡◌, ◌≢◌, refl, sym, ap, ◌∙◌, Option, List, arith, ℕ_discrete, for_range-within,
}
use posix_printer_spooler.Platform.{Conversion, Platform}
use posix_printer_spooler.Spooler.{Spooler, Job, Printer, idle, Effect, forked, deref}
use posix_printer_spooler.Jobs.{schedule_job, try_scheduling_jobs}
use posix_printer_spooler.Jobs.Scheduling.{
  Frame, Round, skipped, not_forked, started, Round-Frame, schedule_job-Round,
}
use posix_printer_spooler.Jobs.Typing.{
  Since, nothing_new, Since-trans, Since-map, IsTyped, IsTypedFor, IsRouting, schedule_job-Since,
}

module _ {P : Platform} where
  -- An event that is a fork is that of a pipeline for a job that the state `s` holds.
  abbrev pub IsTypedIn : Spooler P → Effect → Type 0
  IsTypedIn s (forked pid job path) = (i : ℕ) × ((i < s.job_count) × IsTyped s i job path)
  IsTypedIn s _ = Unit

  -- The printers of `r` are those of `s`, except that some are no longer IDLE.
  record Occupied (s r : Spooler P) : Type 0 where
    same_type : (p : ℕ) → (r.printer_registry p).type ≡ (s.printer_registry p).type
    was_free : (p : ℕ) → (r.printer_registry p).status ≡ idle → (s.printer_registry p).status ≡ idle

  Round-Occupied : (i : ℕ) (s r : Spooler P) → Round i s r → Occupied s r
  Round-Occupied i s r (skipped _ e) =
      rw e (record { same_type = λ p. refl; was_free = λ p free. free })
  Round-Occupied i s r (not_forked _ _ u) = record {
    same_type = λ p. ap (λ f. (f p).type) u.registry;
    was_free = λ p free. sym (ap (λ f. (f p).status) u.registry) ∙ free;
  }
  Round-Occupied i s r (started t q _ _ _ st) = record {
    same_type = λ p. elim (ℕ_discrete p q) [
      | yes same ↦ rw same (ap (λ (x : Printer). x.type) st.printer)
      | no ne ↦ ap (λ (x : Printer). x.type) (st.other_printers p ne)
    ];
    was_free = λ p free. elim (ℕ_discrete p q) [
      | yes same ↦
          ground (arith, free, ap (λ (x : ℕ). (r.printer_registry x).status) same, st.printer)
      | no ne ↦ sym (ap (λ (x : Printer). x.status) (st.other_printers p ne)) ∙ free
    ];
  }

  Round-others :
      (i : ℕ) (s r : Spooler P) → Round i s r → (k : ℕ) → k ≢ i → r.job_spool k ≡ s.job_spool k
  Round-others i s r (skipped _ e) k ne = ap (λ (x : Spooler P). x.job_spool k) e
  Round-others i s r (not_forked _ _ u) k ne = u.others k ne
  Round-others i s r (started _ _ _ _ _ st) k ne = st.others k ne

  -- A pass that began at `s` has come to `r`, before its round `i`.
  record Passed (s : Spooler P) (i : ℕ) (r : Spooler P) : Type 0 where
    frame : Frame s r
    ahead : (k : ℕ) → i ≤ k → r.job_spool k ≡ s.job_spool k
    occupied : Occupied s r
    events : Since (IsTypedIn s) s.trace r.trace

  -- A pipeline of the round `i` against the state at the beginning.
  pipeline_before :
      (s r : Spooler P) (i : ℕ) (job : Job) (path : Option (List Conversion))
      → Passed s i r
      → IsTyped r i job path
      → IsTyped s i job path
  pipeline_before s r i job path passed typed =
      let same : r.job_spool i ≡ s.job_spool i = passed.ahead i (omega arith) in
      record {
        printer = typed.printer;
        from_type = typed.from_type;
        is_job = rw (← same) typed.is_job;
        waits = rw (← same) typed.waits;
        registered = rw (← passed.frame.same_printers) typed.registered;
        is_free = passed.occupied.was_free typed.printer typed.is_free;
        known =
            sym (
              ap₂ (λ (j : Job) (x : P.Table). P.infer_file_type (deref j.input_file_path) x) same
                passed.frame.same_table)
            ∙ typed.known;
        route = rw (← passed.occupied.same_type typed.printer) typed.route;
      }

  event_before :
      (s r : Spooler P) (i : ℕ)
      → i < s.job_count
      → Passed s i r
      → (e : Effect) → IsTypedFor r i e
      → IsTypedIn s e
  event_before s r i below passed (forked pid job path) typed =
      (i, (below, pipeline_before s r i job path passed typed))
  event_before s r i below passed _ typed = tt

module _ {P : Platform} (routing : IsRouting P) where
  round-Passed :
      (s : Spooler P) (i : ℕ) (r : Spooler P)
      → i < s.job_count
      → Passed s i r
      → Passed s (suc i) (schedule_job i r)
  round-Passed s i r below passed =
      let round : Round i r (schedule_job i r) = schedule_job-Round i r in
      let kept = Round-Frame i r (schedule_job i r) round in
      let taken = Round-Occupied i r (schedule_job i r) round in
      record {
        frame = record {
          same_table = kept.same_table ∙ passed.frame.same_table;
          same_printers = kept.same_printers ∙ passed.frame.same_printers;
          same_jobs = kept.same_jobs ∙ passed.frame.same_jobs;
        };
        ahead = λ k h.
            Round-others i r _ round k (λ e. ground (arith, h, e)) ∙ passed.ahead k (omega arith);
        occupied = record {
          same_type = λ p. taken.same_type p ∙ passed.occupied.same_type p;
          was_free = λ p free. passed.occupied.was_free p (taken.was_free p free);
        };
        events =
            Since-trans passed.events
              (Since-map (event_before s r i below passed) (schedule_job-Since routing i r));
      }

  -- If `find_conversion_path` returns paths between the types it is asked for, a scheduling pass
  -- forks pipelines only for jobs that were CREATED when it began, on registered printers that were
  -- IDLE, through conversions that lead, each from where the last one ends, from the type of the
  -- job's file to the type of the printer; without conversions only if these are the same.
  pub try_scheduling_jobs-IsTyped :
      (s : Spooler P) → Since (IsTypedIn s) s.trace (try_scheduling_jobs s).trace
  unfolding try_scheduling_jobs
  try_scheduling_jobs-IsTyped s =
      (for_range-within (Passed s) schedule_job s.job_count (λ i r h. round-Passed s i r h)
        s.job_count 0 s (omega arith)
        (record {
          frame = record { same_table = refl; same_printers = refl; same_jobs = refl };
          ahead = λ k h. refl;
          occupied = record { same_type = λ p. refl; was_free = λ p free. free };
          events = nothing_new;
        })).events
