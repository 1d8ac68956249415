-- ===== src/Jobs/Consistency.antt =====
-- The invariant that ties the jobs to the printers, and its preservation by the job manager.
use mathlib.Core.Path.{subst}
use posix_printer_spooler.Prelude.{
  ℕ, ◌≤◌, ◌<◌, ◌≡◌, sym, ap, ◌∙◌, ◌≢◌, ◌⊎◌, inl, inr, none, some, arith, ℕ_discrete,
  for_range-keeps,
}
use posix_printer_spooler.Platform.{Platform}
use posix_printer_spooler.Spooler.{
  Spooler, Printer, JobStatus, created, running, paused, busy, max_jobs,
}
use posix_printer_spooler.Jobs.{schedule_job, try_scheduling_jobs}
use posix_printer_spooler.Jobs.Scheduling.{
  Round, skipped, not_forked, started, Unstarted, Started, schedule_job-Round,
}

-- A job whose pipeline exists.
abbrev pub IsActive : JobStatus → Type 0
IsActive st = (st ≡ running) ⊎ (st ≡ paused)

module _ {P : Platform} where
  -- The job in slot `i` is active on printer `p`.
  abbrev pub Holds : Spooler P → ℕ → ℕ → Type 0
  Holds s i p =
      (i < s.job_count)
      × IsActive (s.job_spool i).status
      × ((s.job_spool i).target_printer ≡ some p)

  abbrev pub IsPlaced : Spooler P → ℕ → Type 0
  IsPlaced s i =
      i < s.job_count → IsActive (s.job_spool i).status → (s.job_spool i).target_printer ≢ none

  -- Every active job holds a registered printer that is BUSY, and no two hold the same one.
  pub record IsConsistent (s : Spooler P) : Type 0 where
    pub bounded : s.job_count ≤ max_jobs
    pub placed : (i : ℕ) → IsPlaced s i
    pub held :
        (i p : ℕ)
        → Holds s i p
        → (p < s.number_of_registered_printers) × ((s.printer_registry p).status ≡ busy)
    pub exclusive : (i j p : ℕ) → Holds s i p → Holds s j p → i ≡ j

  -- The cases of a job after a start: the job started, or a job that is as it was.
  Started-Holds :
      (i p : ℕ) (s s' : Spooler P)
      → Started i p s s'
      → (k q : ℕ) → Holds s' k q
      → ((k ≡ i) × (q ≡ p)) ⊎ ((k ≢ i) × Holds s k q)
  Started-Holds i p s s' st k q (h, a, e) = elim (ℕ_discrete k i) [
    | yes same ↦
        inl (
          same,
          ground (arith, ap (λ (x : ℕ). (s'.job_spool x).target_printer) same, st.job_target),
        )
    | no ne ↦ inr (
      ne,
      (ground (arith, st.frame.same_jobs), rw (st.others k ne) at a, rw (st.others k ne) at e),
    )
  ]

  pub Started-IsConsistent :
      (i p : ℕ) (s s' : Spooler P)
      → (s.printer_registry p).status ≢ busy
      → p < s.number_of_registered_printers
      → Started i p s s'
      → IsConsistent s
      → IsConsistent s'
  Started-IsConsistent i p s s' free registered st c = record {
    bounded = ground (arith, st.frame.same_jobs, c.bounded);
    placed = λ k h a n. elim (ℕ_discrete k i) [
      | yes e ↦ ground (arith, ap (λ (x : ℕ). (s'.job_spool x).target_printer) e, st.job_target)
      | no ne ↦ c.placed k (ground arith) (rw (st.others k ne) at a) (rw (st.others k ne) at n)
    ];
    held = λ k q h. elim (Started-Holds i p s s' st k q h) [
      | inl (e, f) ↦ rw f (ground arith, ap (λ (x : Printer). x.status) st.printer)
      | inr (ne, g) ↦
          let (r, b) = c.held k q g in
          (
            ground arith,
            ap (λ (x : Printer). x.status) (st.other_printers q (λ e. free (rw e at b))) ∙ b,
          )
    ];
    exclusive = λ j k q g h. elim (Started-Holds i p s s' st j q g) [
      | inl (e, f) ↦ elim (Started-Holds i p s s' st k q h) [
        | inl (e', _) ↦ e ∙ sym e'
        | inr (_, h') ↦ absurd (free (rw f at (c.held k q h').1))
      ]
      | inr (_, g') ↦ elim (Started-Holds i p s s' st k q h) [
        | inl (_, f) ↦ absurd (free (rw f at (c.held j q g').1))
        | inr (_, h') ↦ c.exclusive j k q g' h'
      ]
    ];
  }

  -- How an operation that starts no job keeps the invariant: the jobs that are active after it are,
  -- under an injective renaming of slots, jobs that were active before, on printers that it left BUSY.
  pub renamed-IsConsistent :
      (f : ℕ → ℕ) (s s' : Spooler P)
      → ((j k : ℕ) → f j ≡ f k → j ≡ k)
      → s'.job_count ≤ max_jobs
      → ((k : ℕ) → IsPlaced s' k)
      → ((k q : ℕ) → Holds s' k q → Holds s (f k) q)
      → ((k q : ℕ)
          → Holds s' k q
          → (q < s.number_of_registered_printers) × ((s.printer_registry q).status ≡ busy)
          → (q < s'.number_of_registered_printers) × ((s'.printer_registry q).status ≡ busy))
      → IsConsistent s
      → IsConsistent s'
  renamed-IsConsistent f s s' inj bounded placed back keep c = record {
    bounded = bounded;
    placed = placed;
    held = λ k q h. keep k q h (c.held (f k) q (back k q h));
    exclusive = λ j k q g h. inj j k (c.exclusive (f j) (f k) q (back j q g) (back k q h));
  }

  Unstarted-IsConsistent :
      (i : ℕ) (s s' : Spooler P)
      → (s.job_spool i).status ≡ created
      → Unstarted i s s'
      → IsConsistent s
      → IsConsistent s'
  Unstarted-IsConsistent i s s' waits u c =
      renamed-IsConsistent (λ k. k) s s' (λ j k e. e) (ground (arith, u.frame.same_jobs, c.bounded))
        (λ k h a. elim (ℕ_discrete k i) [
          | yes e ↦ absurd (idle_job (rw e at a))
          | no ne ↦ rw (u.others k ne) (c.placed k (ground arith) (rw (u.others k ne) at a))
        ])
        (λ k q (h, a, e). elim (ℕ_discrete k i) [
          | yes same ↦ absurd (idle_job (rw same at a))
          | no ne ↦ (ground arith, rw (u.others k ne) at a, rw (u.others k ne) at e)
        ])
        (λ k q _ b. rw (u.frame.same_printers, u.registry) b) c
    where
      idle_job : ¬ IsActive (s'.job_spool i).status
      idle_job = ground (arith, u.job)

  pub Round-IsConsistent :
      (i : ℕ) (s s' : Spooler P) → Round i s s' → IsConsistent s → IsConsistent s'
  Round-IsConsistent i s s' (skipped _ e) c = subst IsConsistent (sym e) c
  Round-IsConsistent i s s' (not_forked waits _ u) c = Unstarted-IsConsistent i s s' waits u c
  Round-IsConsistent i s s' (started t p _ _ first st) c =
      Started-IsConsistent i p s s' (λ e. ground (arith, first.0.is_free)) first.0.registered st c

  -- Scheduling keeps the invariant, whether its forks succeed or fail: no printer is ever given to
  -- two active jobs.
  pub try_scheduling_jobs-IsConsistent :
      (s : Spooler P) → IsConsistent s → IsConsistent (try_scheduling_jobs s)
  unfolding try_scheduling_jobs
  try_scheduling_jobs-IsConsistent s c =
      for_range-keeps IsConsistent schedule_job
        (λ i r. Round-IsConsistent i r (schedule_job i r) (schedule_job-Round i r)) s.job_count 0 s
        c

  -- The invariant speaks of the tables only.
  pub same-IsConsistent :
      (s s' : Spooler P)
      → s'.job_count ≡ s.job_count
      → s'.number_of_registered_printers ≡ s.number_of_registered_printers
      → s'.job_spool ≡ s.job_spool
      → s'.printer_registry ≡ s.printer_registry
      → IsConsistent s
      → IsConsistent s'
  same-IsConsistent s s' jobs printers spool registry c = record {
    bounded = rw jobs c.bounded;
    placed = rw (jobs, spool) c.placed;
    held = rw (jobs, printers, spool, registry) c.held;
    exclusive = rw (jobs, spool) c.exclusive;
  }
