-- ===== src/Expiry.antt =====
-- src/job_manager.c: delete_expired_jobs_if_needed.
pub mod Compaction
pub mod Refinement
pub mod Consistency
pub mod Duplicates
use posix_printer_spooler.Prelude.{
  ℕ, zero, suc, ◌+◌, ◌-◌, Bool, true, false, ◌&&◌, leb, ltb, if◌then◌else◌, for_range,
}
use posix_printer_spooler.Platform.{Platform}
use posix_printer_spooler.Spooler.{
  JobStatus, finished, aborted, Job, Spooler, ◌▷◌, emit, set_job, time_now, job_deleted,
}
use posix_printer_spooler.Jobs.{cleanup_job}

abbrev pub is_over : JobStatus → Bool
is_over finished = true
is_over aborted = true
is_over _ = false

-- `difftime(now, job->status_changed_at) >= 10.0`, after the test of the status.
abbrev pub is_expired : ℕ → Job → Bool
is_expired now job = is_over job.status && leb (job.status_changed_at + 10) now

module _ {P : Platform} where
  abbrev pub shift_slot : ℕ → Spooler P → Spooler P
  shift_slot j s = set_job (j - 1) (s.job_spool j) s

  -- Compacts the array after slot `i`.
  unfoldable pub compact : ℕ → Spooler P → Spooler P
  unfolding for_range
  compact i s = for_range shift_slot (s.job_count - suc i) (suc i) s

  unfoldable pub remove_job : ℕ → Spooler P → Spooler P
  unfolding compact
  remove_job i s =
      s
      ▷ emit (job_deleted (s.job_spool i).id)
      ▷ cleanup_job i
      ▷ compact i
      ▷ (λ s₁. record s₁ { job_count = s₁.job_count - 1 })

  -- One round: the index of the next round, and the state. After a removal the same index is next
  -- (`i--` and then `i++`).
  unfoldable pub expiry_round : ℕ → ℕ → Spooler P → ℕ × Spooler P
  unfolding remove_job
  expiry_round now i s = if is_expired now (s.job_spool i) then (i, remove_job i s) else (suc i, s)

  -- Each round brings `i` and `job_count` one nearer, so `job_count` rounds are enough.
  unfoldable pub expiry_loop : ℕ → ℕ → ℕ → Spooler P → Spooler P
  unfolding expiry_round
  expiry_loop zero now i s = s
  expiry_loop (suc fuel) now i s =
      let (i', s') = expiry_round now i s in
      let rest = expiry_loop fuel now i' s' in if ltb i s.job_count then rest else s

  unfoldable pub delete_expired_jobs_if_needed : Spooler P → Spooler P
  unfolding expiry_loop
  delete_expired_jobs_if_needed s = let (now, s₁) = time_now s in expiry_loop s₁.job_count now 0 s₁
