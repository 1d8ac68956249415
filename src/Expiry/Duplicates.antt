-- ===== src/Expiry/Duplicates.antt =====
-- The ids of jobs after a removal.
use posix_printer_spooler.Prelude.{ℕ, suc, ◌-◌, ◌≤◌, ◌<◌, ◌≡◌, ◌≢◌, sym, ◌∙◌, none, some, arith}
use posix_printer_spooler.Text.{Text}
use posix_printer_spooler.Platform.{Platform}
use posix_printer_spooler.Spooler.{Spooler, max_jobs}
use posix_printer_spooler.Jobs.{submit_print_job}
use posix_printer_spooler.Jobs.Submission.{submit_adds}
use posix_printer_spooler.Expiry.{remove_job}
use posix_printer_spooler.Expiry.Compaction.{remove_job-Removed}

module _ {P : Platform} where
  -- The ids of the jobs differ.
  abbrev pub HasUniqueIds : Spooler P → Type 0
  HasUniqueIds s =
      (j k : ℕ)
      → j < s.job_count
      → k < s.job_count
      → (s.job_spool j).id ≡ (s.job_spool k).id
      → j ≡ k

  -- Where each job's id is its slot's number, the removal of an expired job that is not the last one
  -- and the next successful `print` leave two jobs with the same id.
  pub remove-submit_duplicates :
      (i : ℕ) (file_path : Text) (s : Spooler P)
      → suc i < s.job_count
      → s.job_count ≤ max_jobs
      → ((k : ℕ) → k < s.job_count → (s.job_spool k).id ≡ k)
      → P.infer_file_type file_path (remove_job i s).table ≢ none
      → ¬ HasUniqueIds (submit_print_job (some file_path) none (remove_job i s)).1
  remove-submit_duplicates i file_path s inner room numbered known unique =
      let r = remove_job-Removed i s (omega arith) in
      let n = (remove_job i s).job_count in
      let below : n < max_jobs = omega (arith, r.fewer) in
      let added = submit_adds file_path (remove_job i s) below known in
      let last = n - 1 in
      let id_last : ((remove_job i s).job_spool last).id ≡ n = ground (
        arith,
        r.fewer,
        r.behind last (omega (arith, r.fewer)) (omega (arith, r.fewer)),
        numbered (suc last) (omega (arith, r.fewer)),
      ) in
      let same =
        unique last n (omega (arith, r.fewer, added.1)) (omega (arith, added.1))
          ((added.4 last (omega (arith, r.fewer))).0 ∙ id_last ∙ sym added.2) in
      absurd (omega (arith, r.fewer, same))
