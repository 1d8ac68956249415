-- ===== src/Jobs/History.antt =====
-- What the events of include/presi.h tell of the jobs, in the order in which they are told.
use posix_printer_spooler.Prelude.{ℕ, ◌≡◌, true, List, [], ◌∷◌}
use posix_printer_spooler.Platform.{Platform}
use posix_printer_spooler.Spooler.{JobStatus, Effect, job_created, job_status, job_deleted, Spooler}

-- A job came in, its status became this one, it was removed; with the job's id.
pub data Note : Type 0 where
  came : ℕ → Note
  turned : ℕ → JobStatus → Note
  went : ℕ → Note

-- The notes of a trace, the newest first.
abbrev pub history : List Effect → List Note
history [] = []
history (job_created id path type ∷ trace) = came id ∷ history trace
history (job_status id status ∷ trace) = turned id status ∷ history trace
history (job_deleted id ∷ trace) = went id ∷ history trace
history (_ ∷ trace) = history trace

module _ {P : Platform} where
  -- The events between the two states tell nothing of the jobs, and run_cli stays initialized.
  pub record IsQuiet (s r : Spooler P) : Type 0 where
    pub same_history : history r.trace ≡ history s.trace
    pub stays_on : s.initialized ≡ true → r.initialized ≡ true

  -- The events between the two states tell this of the jobs.
  pub record Tells (note : Note) (s r : Spooler P) : Type 0 where
    pub more_history : history r.trace ≡ note ∷ history s.trace
    pub same_initialized : r.initialized ≡ s.initialized
