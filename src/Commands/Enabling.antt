-- ===== src/Commands/Enabling.antt =====
-- handle_enable_command sets the printer IDLE, whatever its status was.
use posix_printer_spooler.Prelude.{
  ℕ, ◌<◌, ◌≡◌, refl, sym, ap, ◌∙◌, ◌≢◌, ◌⊎◌, inl, inr, some, arith, ℕ_discrete, for_range-within,
}
use posix_printer_spooler.Platform.{Platform}
use posix_printer_spooler.Spooler.{Spooler, created, idle}
use posix_printer_spooler.Jobs.{schedule_job, try_scheduling_jobs}
use posix_printer_spooler.Jobs.Scheduling.{
  Round, skipped, not_forked, started, Unstarted, Started, schedule_job-Round,
}
use posix_printer_spooler.Jobs.Consistency.{
  Holds, IsConsistent, renamed-IsConsistent, try_scheduling_jobs-IsConsistent,
}
use posix_printer_spooler.Commands.{enabled, enable_printer}

module _ {P : Platform} where
  -- Enabling a printer that no active job holds keeps the invariant.
  pub enable-IsConsistent :
      (p : ℕ) (s : Spooler P)
      → ((i : ℕ) → ¬ Holds s i p)
      → IsConsistent s
      → IsConsistent (enable_printer p s)
  unfolding enable_printer
  enable-IsConsistent p s free c = try_scheduling_jobs-IsConsistent (enabled p s) (
      renamed-IsConsistent (λ k. k) s (enabled p s) (λ j k e. e) c.bounded c.placed (λ k q h. h)
        (λ k q h b. elim (ℕ_discrete q p) [
          | yes same ↦ absurd (free k (h.0, h.1, h.2 ∙ ap (λ (x : ℕ). some x) same))
          | no ne ↦ (b.0, ground arith)
        ])
        c)

  -- The job in slot `i` is active on `p`, which is IDLE or given to a second job.
  record Shared (i p n : ℕ) (s : Spooler P) : Type 0 where
    count : s.job_count ≡ n
    holder : Holds s i p
    clash : ((s.printer_registry p).status ≡ idle) ⊎ ((j : ℕ) × (j ≢ i) × Holds s j p)

  Shared-broken : (i p n : ℕ) (s : Spooler P) → Shared i p n s → ¬ IsConsistent s
  Shared-broken i p n s h c = elim h.clash [
    | inl free ↦ ground (arith, c.held i p h.holder)
    | inr (j, ne, other) ↦ ne (c.exclusive j i p other h.holder)
  ]

  kept_holder :
      (k j p : ℕ) (s s' : Spooler P)
      → (s'.job_count ≡ s.job_count)
      → (s'.job_spool j ≡ s.job_spool j)
      → Holds s j p
      → Holds s' j p
  kept_holder k j p s s' count same (h, a, e) = (ground arith, rw same a, rw same e)

  active_ne_waiting :
      (k j p : ℕ) (s : Spooler P) → (s.job_spool k).status ≡ created → Holds s j p → j ≢ k
  active_ne_waiting k j p s waits (h, a, e) same = ground (arith, rw same at a)

  Unstarted-Shared :
      (k i p n : ℕ) (s s' : Spooler P)
      → (s.job_spool k).status ≡ created
      → Unstarted k s s'
      → Shared i p n s
      → Shared i p n s'
  Unstarted-Shared k i p n s s' waits u h = record {
    count = u.frame.same_jobs ∙ h.count;
    holder = keep i h.holder;
    clash = elim h.clash [
      | inl free ↦ inl (rw u.registry free)
      | inr (j, ne, other) ↦ inr (j, ne, keep j other)
    ];
  }
    where
      keep : (j : ℕ) → Holds s j p → Holds s' j p
      keep j g =
          kept_holder k j p s s' u.frame.same_jobs (u.others j (active_ne_waiting k j p s waits g))
            g

  Started-Shared :
      (k q i p n : ℕ) (s s' : Spooler P)
      → k < n
      → (s.job_spool k).status ≡ created
      → Started k q s s'
      → Shared i p n s
      → Shared i p n s'
  Started-Shared k q i p n s s' below waits st h = record {
    count = st.frame.same_jobs ∙ h.count;
    holder = keep i h.holder;
    clash = elim h.clash [
      | inr (j, ne, other) ↦ inr (j, ne, keep j other)
      | inl free ↦ elim (ℕ_discrete p q) [
        | no ne ↦ inl (rw (st.other_printers p ne) free)
        | yes same ↦ inr (
          k,
          (λ e. active_ne_waiting k i p s waits h.holder (sym e)),
          (
            ground (arith, h.count, st.frame.same_jobs),
            inl st.job_status,
            st.job_target ∙ ap (λ (x : ℕ). some x) (sym same),
          ),
        )
      ]
    ];
  }
    where
      keep : (j : ℕ) → Holds s j p → Holds s' j p
      keep j g =
          kept_holder k j p s s' st.frame.same_jobs
            (st.others j (active_ne_waiting k j p s waits g)) g

  Round-Shared :
      (k i p n : ℕ) (s s' : Spooler P) → k < n → Round k s s' → Shared i p n s → Shared i p n s'
  Round-Shared k i p n s s' below (skipped _ e) h = rw e h
  Round-Shared k i p n s s' below (not_forked waits _ u) h = Unstarted-Shared k i p n s s' waits u h
  Round-Shared k i p n s s' below (started t q waits _ _ st) h =
      Started-Shared k q i p n s s' below waits st h

  enable-Shared :
      (i p : ℕ) (s : Spooler P) → Holds s i p → Shared i p s.job_count (enable_printer p s)
  unfolding enable_printer try_scheduling_jobs
  enable-Shared i p s h = shared
    where
      end : Shared i p s.job_count (try_scheduling_jobs (enabled p s))
      end =
          for_range-within (λ _. Shared i p s.job_count) schedule_job s.job_count
            (λ k r below.
              Round-Shared k i p s.job_count r (schedule_job k r) below (schedule_job-Round k r))
            s.job_count 0 (enabled p s) (omega arith)
            (record { count = refl; holder = h; clash = inl (ground arith) })

      shared : Shared i p s.job_count (enable_printer p s)
      shared = record { count = end.count; holder = end.holder; clash = end.clash }

  -- Enabling a printer that an active job holds leaves that job active on it, and the printer ends up
  -- IDLE, or a second active job ends up on it. So the invariant of jobs and printers is broken.
  pub enable_held_breaks :
      (i p : ℕ) (s : Spooler P)
      → Holds s i p
      → Holds (enable_printer p s) i p
        × ((((enable_printer p s).printer_registry p).status ≡ idle)
            ⊎ ((j : ℕ) × (j ≢ i) × Holds (enable_printer p s) j p))
        × (¬ IsConsistent (enable_printer p s))
  enable_held_breaks i p s h =
      let end = enable-Shared i p s h in
      (end.holder, end.clash, Shared-broken i p s.job_count _ end)
