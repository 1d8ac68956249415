-- ===== src/Expiry/Consistency.antt =====
-- delete_expired_jobs_if_needed keeps the invariant of jobs and printers.
use posix_printer_spooler.Prelude.{
  ℕ, zero, suc, ◌<◌, ◌≡◌, refl, inl, inr, arith, ltb, if◌then◌else◌, Bool-cases, ltb→lt,
}
use posix_printer_spooler.Platform.{Platform}
use posix_printer_spooler.Spooler.{Spooler}
use posix_printer_spooler.Jobs.Consistency.{IsConsistent, renamed-IsConsistent, same-IsConsistent}
use posix_printer_spooler.Expiry.{
  is_expired, expiry_loop, delete_expired_jobs_if_needed, remove_job,
}
use posix_printer_spooler.Expiry.Compaction.{Removed, remove_job-Removed}

-- The slot that a job came from when the one in slot `i` was removed.
abbrev pub origin : ℕ → ℕ → ℕ
origin i k = if ltb k i then k else suc k

origin-injective : (i j k : ℕ) → origin i j ≡ origin i k → j ≡ k
origin-injective i j k e = ground arith

module _ {P : Platform} where
  pub from_origin :
      (i : ℕ) (s r : Spooler P)
      → Removed i s r
      → (k : ℕ) → k < r.job_count
      → r.job_spool k ≡ s.job_spool (origin i k)
  from_origin i s r d k h = elim (Bool-cases (ltb k i)) [
    | inl low ↦ rw low (d.before k (ground arith))
    | inr high ↦ rw high (d.behind k (ground arith) h)
  ]

  pub origin-lt :
      (i : ℕ) (s r : Spooler P)
      → Removed i s r
      → (k : ℕ) → k < r.job_count
      → origin i k < s.job_count
  origin-lt i s r d k h = ground (arith, d.fewer)

  Removed-IsConsistent : (i : ℕ) (s r : Spooler P) → Removed i s r → IsConsistent s → IsConsistent r
  Removed-IsConsistent i s r d c =
      renamed-IsConsistent (origin i) s r (origin-injective i) (omega (arith, d.fewer, c.bounded))
        (λ k h. rw (from_origin i s r d k h) (λ a. c.placed (origin i k) (origin-lt i s r d k h) a))
        (λ k q (h, a, e). (
          origin-lt i s r d k h,
          rw (from_origin i s r d k h) at a,
          rw (from_origin i s r d k h) at e,
        ))
        (λ k q _ b. rw (d.same_printers, d.same_registry) b) c

  expiry_loop-IsConsistent :
      (fuel now i : ℕ) (s : Spooler P) → IsConsistent s → IsConsistent (expiry_loop fuel now i s)
  unfolding expiry_loop
  expiry_loop-IsConsistent zero now i s c = c
  expiry_loop-IsConsistent (suc fuel) now i s c = elim (Bool-cases (ltb i s.job_count)) [
    | inr done ↦ rw done c
    | inl more ↦ rw more (elim (Bool-cases (is_expired now (s.job_spool i))) [
      | inl gone ↦ rw gone (
          expiry_loop-IsConsistent fuel now i (remove_job i s)
            (Removed-IsConsistent i s _ (remove_job-Removed i s (ltb→lt _ _ more)) c))
      | inr keep ↦ rw keep (expiry_loop-IsConsistent fuel now (suc i) s c)
    ])
  ]

  -- A clean-up keeps the invariant.
  pub delete_expired-IsConsistent :
      (s : Spooler P) → IsConsistent s → IsConsistent (delete_expired_jobs_if_needed s)
  unfolding delete_expired_jobs_if_needed
  delete_expired-IsConsistent s c =
      let s₁ : Spooler P = record s { world = (P.time s.world).1 } in
      expiry_loop-IsConsistent s.job_count (P.time s.world).0 0 s₁
        (same-IsConsistent s s₁ refl refl refl refl c)
