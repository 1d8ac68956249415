-- ===== src/Settled.antt =====
-- No job waits beside a suitable printer: the scheduler against the commands and the reports on
-- children.
pub mod Commands
pub mod Session
use mathlib.Core.Path.{ap₂}
use posix_printer_spooler.Prelude.{
  ℕ, zero, suc, ◌-◌, ◌<◌, ◌≡◌, ◌≢◌, refl, sym, ap, ◌∙◌, ◌⊎◌, inl, inr, is_negative, true, false,
  some, arith, ltb, dec_lt, List, if_elim, if_then_elim, for_range-keeps, ℕ_discrete,
}
use posix_printer_spooler.Platform.{FileType, Platform}
use posix_printer_spooler.Spooler.{Spooler, Printer, Job, created, deref}
use posix_printer_spooler.Printers.Selection.{Suitable}
use posix_printer_spooler.Jobs.{job_type}
use posix_printer_spooler.Jobs.Progress.{IsSettled}
use posix_printer_spooler.Expiry.{
  shift_slot, compact, remove_job, is_expired, expiry_round, expiry_loop,
  delete_expired_jobs_if_needed,
}
use posix_printer_spooler.Expiry.Compaction.{Removed, remove_job-Removed}

module _ {P : Platform} where
  abbrev pub AreSettled : Spooler P → Type 0
  AreSettled s = (i : ℕ) → i < s.job_count → IsSettled s i

  abbrev pub NoneWaiting : Spooler P → Type 0
  NoneWaiting s = (i : ℕ) → i < s.job_count → (s.job_spool i).status ≢ created

  pub NoneWaiting-AreSettled : (s : Spooler P) → NoneWaiting s → AreSettled s
  NoneWaiting-AreSettled s none_waits i h t waits = absurd (none_waits i h waits)

  -- What a settled job does not depend on may change.
  pub record SameView (s r : Spooler P) : Type 0 where
    pub same_table : r.table ≡ s.table
    pub same_printers : r.number_of_registered_printers ≡ s.number_of_registered_printers
    pub same_registry : r.printer_registry ≡ s.printer_registry

  Suitable-SameView :
      (t : FileType) (s r : Spooler P) (p : ℕ) → SameView s r → Suitable t r p → Suitable t s p
  Suitable-SameView t s r p v h = record {
    registered = rw v.same_printers at h.registered;
    is_free = rw v.same_registry at h.is_free;
    reachable = rw (v.same_registry, v.same_table) at h.reachable;
  }

  -- A job that was settled in slot `j`, and is in slot `i` now.
  pub moved-IsSettled :
      (s r : Spooler P) (i j : ℕ)
      → SameView s r
      → r.job_spool i ≡ s.job_spool j
      → IsSettled s j
      → IsSettled r i
  moved-IsSettled s r i j v same settled t waits known p h =
      settled t (rw same at waits)
        (sym (
            ap₂ (λ (x : Job) (y : P.Table). P.infer_file_type (deref x.input_file_path) y) same
              v.same_table)
          ∙ known)
        p (Suitable-SameView t s r p v h)

  pub same-AreSettled :
      (s r : Spooler P)
      → SameView s r
      → r.job_count ≡ s.job_count
      → r.job_spool ≡ s.job_spool
      → AreSettled s
      → AreSettled r
  same-AreSettled s r v jobs spool settled i h =
      moved-IsSettled s r i i v (ap (λ (f : ℕ → Job). f i) spool)
        (settled i (omega (arith, h, jobs)))

  same_table-compact : (i : ℕ) (s : Spooler P) → (compact i s).table ≡ s.table
  unfolding compact
  same_table-compact i s =
      for_range-keeps (λ r. r.table ≡ s.table) shift_slot (λ j r h. h) (s.job_count - suc i) (suc i)
        s refl

  same_table-remove : (i : ℕ) (s : Spooler P) → (remove_job i s).table ≡ s.table
  unfolding remove_job
  same_table-remove i s = same_table-compact i _

  remove_job-AreSettled :
      (i : ℕ) (s : Spooler P) → i < s.job_count → AreSettled s → AreSettled (remove_job i s)
  remove_job-AreSettled i s below settled k h =
      let gone : Removed i s (remove_job i s) = remove_job-Removed i s below in
      let v : SameView s (remove_job i s) = record {
        same_table = same_table-remove i s;
        same_printers = gone.same_printers;
        same_registry = gone.same_registry;
      } in
      elim (dec_lt k i) [
        | yes before ↦
            moved-IsSettled s _ k k v (gone.before k before) (settled k (omega (arith, gone.fewer)))
        | no behind ↦
            moved-IsSettled s _ k (suc k) v (gone.behind k (omega arith) h)
              (settled (suc k) (omega (arith, gone.fewer)))
      ]

  expiry_loop-AreSettled :
      (fuel now i : ℕ) (s : Spooler P) → AreSettled s → AreSettled (expiry_loop fuel now i s)
  unfolding expiry_loop expiry_round
  expiry_loop-AreSettled zero now i s settled = settled
  expiry_loop-AreSettled (suc fuel) now i s settled =
      if_then_elim AreSettled (ltb i s.job_count) _ _
        (λ below.
          expiry_loop-AreSettled fuel now (expiry_round now i s).0 (expiry_round now i s).1 (
            if_elim (λ (r : ℕ × Spooler P). AreSettled r.1) (is_expired now (s.job_spool i)) _ _
              (remove_job-AreSettled i s (ground arith) settled) settled))
        settled

  pub delete_expired-AreSettled :
      (s : Spooler P) → AreSettled s → AreSettled (delete_expired_jobs_if_needed s)
  unfolding delete_expired_jobs_if_needed
  delete_expired-AreSettled s settled =
      let s₁ : Spooler P = record s { world = (P.time s.world).1 } in
      let unchanged : SameView s s₁ = record {
        same_table = refl;
        same_printers = refl;
        same_registry = refl;
      } in
      expiry_loop-AreSettled s.job_count (P.time s.world).0 0 s₁
        (same-AreSettled s s₁ unchanged refl refl settled)
