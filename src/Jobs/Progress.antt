-- ===== src/Jobs/Progress.antt =====
-- What try_scheduling_jobs achieves: no CREATED job is left waiting beside a suitable printer.
use mathlib.Core.Path.{subst, ap₂}
use native.Mathlib.Nat.{zero-add}
use posix_printer_spooler.Prelude.{
  ℕ, suc, ◌<◌, ◌≡◌, refl, sym, ap, ◌∙◌, ◌⊎◌, inl, inr, is_negative, false, some, arith, ℕ_discrete,
  for_range-counts,
}
use posix_printer_spooler.Platform.{FileType, Platform}
use posix_printer_spooler.Spooler.{Spooler, Job, created, deref}
use posix_printer_spooler.Printers.Selection.{Suitable}
use posix_printer_spooler.Jobs.{job_type, schedule_job, try_scheduling_jobs}
use posix_printer_spooler.Jobs.Scheduling.{
  Round, skipped, not_forked, started, Started, Round-Frame, schedule_job-Round,
}

module _ {P : Platform} where
  -- If the job in slot `i` waits, it has no type or no printer is suitable for it.
  abbrev pub IsSettled : Spooler P → ℕ → Type 0
  IsSettled s i =
      (t : FileType)
      → (s.job_spool i).status ≡ created
      → job_type i s ≡ some t
      → (p : ℕ) → ¬ Suitable t s p

  Suitable-Started :
      (i q : ℕ) (s s' : Spooler P) (t : FileType) (p : ℕ)
      → Started i q s s'
      → Suitable t s' p
      → Suitable t s p
  Suitable-Started i q s s' t p st h = elim (ℕ_discrete p q) [
    | yes e ↦
        ground (arith, h.is_free, ap (λ (x : ℕ). (s'.printer_registry x).status) e, st.printer)
    | no ne ↦
        let same : s'.printer_registry p ≡ s.printer_registry p = st.other_printers p ne in
        record {
          registered = ground (arith, h.registered, st.frame.same_printers);
          is_free = rw same at h.is_free;
          reachable = rw (← same, ← st.frame.same_table) h.reachable;
        }
  ]

  -- A start settles its own job, and unsettles none.
  Started-IsSettled :
      (i q : ℕ) (s s' : Spooler P)
      → Started i q s s'
      → (k : ℕ) → (k ≡ i) ⊎ IsSettled s k
      → IsSettled s' k
  Started-IsSettled i q s s' st k was t waits known p h = elim (ℕ_discrete k i) [
    | yes e ↦ ground (arith, ap (λ (x : ℕ). (s'.job_spool x).status) e, st.job_status)
    | no ne ↦ elim was [
      | inl e ↦ absurd (ne e)
      | inr settled ↦
          let same : s'.job_spool k ≡ s.job_spool k = st.others k ne in
          settled t (rw same at waits)
            (sym (
                ap₂ (λ (j : Job) (x : P.Table). P.infer_file_type (deref j.input_file_path) x) same
                  st.frame.same_table)
              ∙ known)
            p (Suitable-Started i q s s' t p st h)
    ]
  ]

  module _ (forks : (w : P.World) → is_negative (P.fork w).0 ≡ false) where
    Round-IsSettled :
        (i : ℕ) (s s' : Spooler P)
        → Round i s s'
        → (k : ℕ) → (k ≡ i) ⊎ IsSettled s k
        → IsSettled s' k
    Round-IsSettled i s s' (skipped none_fits e) k (inl same) =
        rw (e, same) (λ t waits known p. none_fits t waits known p)
    Round-IsSettled i s s' (skipped none_fits e) k (inr settled) =
        subst (λ x. IsSettled x k) (sym e) settled
    Round-IsSettled i s s' (not_forked _ failed _) k was = ground (arith, forks s.world)
    Round-IsSettled i s s' (started t q _ _ _ st) k was = Started-IsSettled i q s s' st k was

    IsSettledBelow : Spooler P → ℕ → Spooler P → Type 0
    IsSettledBelow s m r = (r.job_count ≡ s.job_count) × ((k : ℕ) → k < m → IsSettled r k)

    round-IsSettledBelow :
        (s : Spooler P) (m : ℕ) (r : Spooler P)
        → IsSettledBelow s m r
        → IsSettledBelow s (suc m) (schedule_job m r)
    unfolding IsSettledBelow
    round-IsSettledBelow s m r (same, below) = (
      (Round-Frame m r _ (schedule_job-Round m r)).same_jobs ∙ same,
      λ k l.
          Round-IsSettled m r _ (schedule_job-Round m r) k
            (elim (ℕ_discrete k m) [ yes e ↦ inl e | no ne ↦ inr (below k (omega arith)) ]),
    )

    -- While forks succeed, no CREATED job whose type is known is left, after a scheduling pass,
    -- beside an IDLE printer of that type or at the end of a conversion path from it.
    pub try_scheduling_jobs-IsSettled :
        (s : Spooler P) (i : ℕ)
        → i < (try_scheduling_jobs s).job_count
        → IsSettled (try_scheduling_jobs s) i
    unfolding try_scheduling_jobs IsSettledBelow
    try_scheduling_jobs-IsSettled s i h =
        let (same, settled) : IsSettledBelow s s.job_count (try_scheduling_jobs s) =
          rw zero-add at (
            for_range-counts (IsSettledBelow s) schedule_job (round-IsSettledBelow s) s.job_count 0
              s (refl, λ k l. absurd (omega arith))) in
        settled i (omega arith)
