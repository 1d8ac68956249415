-- ===== src/Jobs/Scheduling.antt =====
-- What one round of try_scheduling_jobs does to the tables.
use mathlib.Core.Path.{subst}
use mathlib.Core.Option.{some-injective}
use posix_printer_spooler.Prelude.{
  ℕ, ℤ, ◌≡◌, refl, sym, ap, ◌∙◌, ◌≢◌, ◌⊎◌, inl, inr, is_negative, true, false, Option, none, some,
  List, arith, ℕ_discrete, Bool-cases, Option-cases,
}
use posix_printer_spooler.Text.{text_eq, text_eq_refl}
use posix_printer_spooler.Platform.{FileType, Conversion, Platform}
use posix_printer_spooler.Spooler.{
  Spooler, Effect, created, running, busy, printer_type, emit, forked,
}
use posix_printer_spooler.Printers.{select_compatible_printer}
use posix_printer_spooler.Printers.Selection.{Suitable, Selects, select-Selects}
use posix_printer_spooler.Jobs.{
  is_created, mark_running, launch, set_target, start_on, job_type, schedule_job,
}

module _ {P : Platform} where
  -- What no round changes: the counts, the library's table, the flags.
  pub record Frame (s s' : Spooler P) : Type 0 where
    pub same_table : s'.table ≡ s.table
    pub same_printers : s'.number_of_registered_printers ≡ s.number_of_registered_printers
    pub same_jobs : s'.job_count ≡ s.job_count

  -- No pipeline was started for the job in slot `i`.
  pub record Unstarted (i : ℕ) (s s' : Spooler P) : Type 0 where
    pub frame : Frame s s'
    pub registry : s'.printer_registry ≡ s.printer_registry
    pub others : (k : ℕ) → k ≢ i → s'.job_spool k ≡ s.job_spool k
    pub job :
        (s'.job_spool i ≡ s.job_spool i)
        ⊎ (s'.job_spool i ≡ record (s.job_spool i) { target_printer = none })

  -- The job in slot `i` was started on printer `p`.
  pub record Started (i p : ℕ) (s s' : Spooler P) : Type 0 where
    pub frame : Frame s s'
    pub printer : s'.printer_registry p ≡ record (s.printer_registry p) { status = busy }
    pub other_printers : (q : ℕ) → q ≢ p → s'.printer_registry q ≡ s.printer_registry q
    pub others : (k : ℕ) → k ≢ i → s'.job_spool k ≡ s.job_spool k
    pub job_status : (s'.job_spool i).status ≡ running
    pub job_target : (s'.job_spool i).target_printer ≡ some p
    pub job_path : (s'.job_spool i).input_file_path ≡ (s.job_spool i).input_file_path
    pub job_id : (s'.job_spool i).id ≡ (s.job_spool i).id

  pub launch_failed :
      (i p : ℕ) (path : Option (List Conversion)) (s : Spooler P)
      → is_negative (P.fork s.world).0 ≡ true
      → launch i p path s ≡ set_target i none (record s { world = (P.fork s.world).1 })
  unfolding launch
  launch_failed i p path s h = rw h

  pub launch_started :
      (i p : ℕ) (path : Option (List Conversion)) (s : Spooler P)
      → is_negative (P.fork s.world).0 ≡ false
      → launch i p path s
        ≡ mark_running i p (P.fork s.world).0 path (
            emit
              (forked (P.fork s.world).0 (s.job_spool i) path)
              (record s { world = (P.fork s.world).1 }))
  unfolding launch
  launch_started i p path s h = rw h (rw h)

  pub mark_running-Started :
      (i p : ℕ) (pid : ℤ) (path : Option (List Conversion)) (s : Spooler P)
      → (s.job_spool i).target_printer ≡ some p
      → Started i p s (mark_running i p pid path s)
  unfolding mark_running
  mark_running-Started i p pid path s h = record {
    frame = record { same_table = refl; same_printers = refl; same_jobs = refl };
    printer = ground arith;
    other_printers = λ q ne. ground arith;
    others = λ k ne. ground arith;
    job_status = ground arith;
    job_target = ground arith;
    job_path = ground arith;
    job_id = ground arith;
  }

  from_target :
      (i p : ℕ) (s : Spooler P) (w : P.World) (e : Effect) (s' : Spooler P)
      → Started i p (emit e (record (set_target i (some p) s) { world = w })) s'
      → Started i p s s'
  from_target i p s w e s' h = record {
    frame = record {
      same_table = h.frame.same_table;
      same_printers = h.frame.same_printers;
      same_jobs = h.frame.same_jobs;
    };
    printer = h.printer;
    other_printers = h.other_printers;
    others = λ k ne. ground (arith, h.others k ne);
    job_status = h.job_status;
    job_target = h.job_target;
    job_path = ground (arith, h.job_path);
    job_id = ground (arith, h.job_id);
  }

  -- A round that starts from `s` with the target of job `i` set.
  launch_lem :
      (i p : ℕ) (path : Option (List Conversion)) (s : Spooler P)
      → ((is_negative (P.fork s.world).0 ≡ true)
          × Unstarted i s (launch i p path (set_target i (some p) s)))
        ⊎ Started i p s (launch i p path (set_target i (some p) s))
  launch_lem i p path s = elim (Bool-cases (is_negative (P.fork s.world).0)) [
    | inl failed ↦ inl (
      failed,
      rw (launch_failed i p path (set_target i (some p) s) failed) (record {
        frame = record { same_table = refl; same_printers = refl; same_jobs = refl };
        registry = refl;
        others = λ k ne. ground arith;
        job = inr (ground arith);
      }),
    )
    | inr started ↦ inr (
        rw (launch_started i p path (set_target i (some p) s) started) (
          from_target i p s _ _ _
            (mark_running-Started i p (P.fork s.world).0 path _ (ground arith))))
  ]

  start_on_lem :
      (i : ℕ) (t : FileType) (p : ℕ) (s : Spooler P)
      → Suitable t s p
      → ((is_negative (P.fork s.world).0 ≡ true) × Unstarted i s (start_on i t p s))
        ⊎ Started i p s (start_on i t p s)
  unfolding start_on
  start_on_lem i t p s h = elim (Bool-cases (text_eq t.name (printer_type p s))) [
    | inl direct ↦ rw direct (launch_lem i p none s)
    | inr other ↦ elim h.reachable [
      | inl e ↦ ground (arith, text_eq_refl t.name)
      | inr (path, e) ↦ rw (other, e) (launch_lem i p (some path) s)
    ]
  ]

  -- What a round can do for the job in slot `i`: nothing, if the job is not CREATED, has no known
  -- type or finds no suitable printer; nothing but clearing the target, if the fork fails; or start
  -- a CREATED job on a suitable printer, the first one.
  pub data Round (i : ℕ) (s s' : Spooler P) : Type 0 where
    skipped :
        ((t : FileType)
          → (s.job_spool i).status ≡ created
          → job_type i s ≡ some t
          → (p : ℕ) → ¬ Suitable t s p)
        → s' ≡ s
        → Round i s s'
    not_forked :
        (s.job_spool i).status ≡ created
        → is_negative (P.fork s.world).0 ≡ true
        → Unstarted i s s'
        → Round i s s'
    started :
        (t : FileType) (p : ℕ)
        → (s.job_spool i).status ≡ created
        → job_type i s ≡ some t
        → Selects t s (some p)
        → Started i p s s'
        → Round i s s'

  pub schedule_job-Round : (i : ℕ) (s : Spooler P) → Round i s (schedule_job i s)
  unfolding schedule_job
  schedule_job-Round i s = elim (Bool-cases (is_created (s.job_spool i).status)) [
    | inr other ↦ rw other (skipped (λ t e. ground arith) refl)
    | inl waits ↦ elim (Option-cases (job_type i s)) [
      | inl unknown ↦ rw (waits, unknown) (skipped (λ t e k. cc) refl)
      | inr (t, known) ↦ chosen waits t known (select_compatible_printer (some t) s) refl
    ]
  ]
    where
      chosen :
          is_created (s.job_spool i).status ≡ true
          → (t : FileType) → job_type i s ≡ some t
          → (r : Option ℕ) → select_compatible_printer (some t) s ≡ r
          → Round i s (schedule_job i s)
      chosen waits t known none e =
          rw (waits, known, e)
            (skipped
              (λ t' _ k.
                subst (λ x. Selects x s none) (some-injective t t' (sym known ∙ k))
                  (rw e at (select-Selects t s)))
              refl)
      chosen waits t known (some p) e =
          let first : Selects t s (some p) = rw e at (select-Selects t s) in
          rw (waits, known, e)
            (elim (start_on_lem i t p s first.0) [
              | inl (failed, u) ↦ not_forked (ground arith) failed u
              | inr st ↦ started t p (ground arith) known first st
            ])

  pub Round-Frame : (i : ℕ) (s s' : Spooler P) → Round i s s' → Frame s s'
  Round-Frame i s s' (skipped _ e) = record {
    same_table = ap (λ (x : Spooler P). x.table) e;
    same_printers = ap (λ (x : Spooler P). x.number_of_registered_printers) e;
    same_jobs = ap (λ (x : Spooler P). x.job_count) e;
  }
  Round-Frame i s s' (not_forked _ _ u) = u.frame
  Round-Frame i s s' (started _ _ _ _ _ st) = st.frame

  -- No round changes the id or the path of a job.
  pub Round-identity :
      (i : ℕ) (s s' : Spooler P)
      → Round i s s'
      → (k : ℕ)
      → ((s'.job_spool k).id ≡ (s.job_spool k).id)
        × ((s'.job_spool k).input_file_path ≡ (s.job_spool k).input_file_path)
  Round-identity i s s' (skipped _ e) k = rw e (refl, refl)
  Round-identity i s s' (not_forked _ _ u) k = elim (ℕ_discrete k i) [
    | yes same ↦ rw same (ground (arith, u.job))
    | no ne ↦ rw (u.others k ne) (refl, refl)
  ]
  Round-identity i s s' (started _ _ _ _ _ st) k = elim (ℕ_discrete k i) [
    | yes same ↦ rw same (st.job_id, st.job_path)
    | no ne ↦ rw (st.others k ne) (refl, refl)
  ]
