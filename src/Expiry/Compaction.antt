-- ===== src/Expiry/Compaction.antt =====
-- What the removal of one job does to the array.
use mathlib.Core.Path.{subst}
use posix_printer_spooler.Prelude.{
  ℕ, suc, ◌-◌, ◌≤◌, ◌<◌, ◌≡◌, refl, ◌&&◌, ◌∷◌, arith, leb, ltb, if◌then◌else◌, for_range-counts,
}
use posix_printer_spooler.Platform.{Platform}
use posix_printer_spooler.Spooler.{Spooler, emit, job_deleted}
use posix_printer_spooler.Jobs.{cleanup_job}
use posix_printer_spooler.Expiry.{shift_slot, compact, remove_job}

module _ {P : Platform} where
  -- The fields beside the array, which a compaction leaves alone.
  record SameRest (s r : Spooler P) : Type 0 where
    same_jobs : r.job_count ≡ s.job_count
    same_printers : r.number_of_registered_printers ≡ s.number_of_registered_printers
    same_registry : r.printer_registry ≡ s.printer_registry
    same_trace : r.trace ≡ s.trace
    same_initialized : r.initialized ≡ s.initialized

  -- The array after the loop's index has reached `m`.
  Shifted : ℕ → Spooler P → ℕ → Spooler P → Type 0
  Shifted i s m r =
      SameRest s r
      × (suc i ≤ m)
      × ((k : ℕ)
          → r.job_spool k
            ≡ (if leb i k && ltb (suc k) m then s.job_spool (suc k) else s.job_spool k))

  Shifted-start : (i : ℕ) (s : Spooler P) → Shifted i s (suc i) s
  unfolding Shifted
  Shifted-start i s = (
    record {
      same_jobs = refl;
      same_printers = refl;
      same_registry = refl;
      same_trace = refl;
      same_initialized = refl;
    },
    omega arith,
    λ k. ground arith,
  )

  shift-Shifted :
      (i : ℕ) (s : Spooler P) (m : ℕ) (r : Spooler P)
      → Shifted i s m r
      → Shifted i s (suc m) (shift_slot m r)
  unfolding Shifted
  shift-Shifted i s m r (rest, le, at) = (
    record {
      same_jobs = rest.same_jobs;
      same_printers = rest.same_printers;
      same_registry = rest.same_registry;
      same_trace = rest.same_trace;
      same_initialized = rest.same_initialized;
    },
    omega arith,
    λ k. ground (arith, at k, at m),
  )

  compact-Shifted :
      (i : ℕ) (s : Spooler P) → i < s.job_count → Shifted i s s.job_count (compact i s)
  unfolding compact
  compact-Shifted i s h =
      subst (λ m. Shifted i s m (compact i s)) (omega arith)
        (for_range-counts (Shifted i s) shift_slot (shift-Shifted i s) (s.job_count - suc i) (suc i)
          s (Shifted-start i s))

  -- What remains after the removal of the job in slot `i`: the jobs before it stay, the jobs behind
  -- it move down by one slot, and of the printers nothing changes; the trace has the event.
  pub record Removed (i : ℕ) (s r : Spooler P) : Type 0 where
    pub fewer : suc r.job_count ≡ s.job_count
    pub same_printers : r.number_of_registered_printers ≡ s.number_of_registered_printers
    pub same_registry : r.printer_registry ≡ s.printer_registry
    pub event : r.trace ≡ job_deleted (s.job_spool i).id ∷ s.trace
    pub same_initialized : r.initialized ≡ s.initialized
    pub before : (k : ℕ) → k < i → r.job_spool k ≡ s.job_spool k
    pub behind : (k : ℕ) → i ≤ k → k < r.job_count → r.job_spool k ≡ s.job_spool (suc k)

  pub remove_job-Removed : (i : ℕ) (s : Spooler P) → i < s.job_count → Removed i s (remove_job i s)
  unfolding remove_job Shifted
  remove_job-Removed i s h =
      let (rest, _, at) =
        compact-Shifted i (cleanup_job i (emit (job_deleted (s.job_spool i).id) s)) h in
      record {
        fewer = ground (arith, rest.same_jobs);
        same_printers = rest.same_printers;
        same_registry = rest.same_registry;
        event = rest.same_trace;
        same_initialized = rest.same_initialized;
        before = λ k l. ground (arith, at k);
        behind = λ k l m. ground (arith, at k, rest.same_jobs);
      }
