-- ===== src/Lifecycle.antt =====
-- The life of a job, as the comments of include/job_struct.h and src/job_manager.c give it, and the job
-- table as an abstract machine. Each of its moves but two, which change no status, goes with the
-- events that tell of it, so the events of a run fix the moves that it can be.
pub mod Rounds
pub mod Jobs
pub mod Children
pub mod Commands
pub mod Session
use posix_printer_spooler.Prelude.{
  ℕ, suc, ◌<◌, ◌≡◌, ◌≢◌, refl, sym, ◌∙◌, ◌⊎◌, none, true, arith, ◌∷◌,
}
use posix_printer_spooler.Platform.{Platform}
use posix_printer_spooler.Spooler.{
  JobStatus, created, running, paused, finished, aborted, max_jobs, Spooler,
}
use posix_printer_spooler.Jobs.Consistency.{IsActive}
use posix_printer_spooler.Jobs.History.{came, turned, history, IsQuiet, Tells}
use posix_printer_spooler.Expiry.Compaction.{Removed}

-- The steps in the life of a job: it is started or cancelled while it waits, it is stopped and
-- continued, and it ends.
pub data Advance (a b : JobStatus) : Type 0 where
  starts : a ≡ created → b ≡ running → Advance a b
  is_dropped : a ≡ created → b ≡ aborted → Advance a b
  switches : IsActive a → IsActive b → Advance a b
  finishes : IsActive a → b ≡ finished → Advance a b
  aborts : IsActive a → b ≡ aborted → Advance a b

abbrev pub IsOver : JobStatus → Type 0
IsOver st = (st ≡ finished) ⊎ (st ≡ aborted)

module _ {P : Platform} where
  -- The job in slot `i` gets or loses its printer, and keeps its status, id, path and slot.
  pub record Assigned (i : ℕ) (s r : Spooler P) : Type 0 where
    pub below : i < s.job_count
    pub same_jobs : r.job_count ≡ s.job_count
    pub same_status : (r.job_spool i).status ≡ (s.job_spool i).status
    pub same_id : (r.job_spool i).id ≡ (s.job_spool i).id
    pub same_path : (r.job_spool i).input_file_path ≡ (s.job_spool i).input_file_path
    pub others : (k : ℕ) → k ≢ i → r.job_spool k ≡ s.job_spool k
    pub quiet : IsQuiet s r

  -- The job in slot `i` advances, and keeps its id, its path and its slot. One event tells its new
  -- status.
  pub record Advanced (i : ℕ) (s r : Spooler P) : Type 0 where
    pub below : i < s.job_count
    pub same_jobs : r.job_count ≡ s.job_count
    pub moved : Advance (s.job_spool i).status (r.job_spool i).status
    pub told : Tells (turned (s.job_spool i).id (r.job_spool i).status) s r
    pub same_id : (r.job_spool i).id ≡ (s.job_spool i).id
    pub same_path : (r.job_spool i).input_file_path ≡ (s.job_spool i).input_file_path
    pub others : (k : ℕ) → k ≢ i → r.job_spool k ≡ s.job_spool k

  -- A job comes in, behind the others, with a path, and waits. Two events tell that it came, and its
  -- status.
  pub record Added (s r : Spooler P) : Type 0 where
    pub room : s.job_count < max_jobs
    pub more : r.job_count ≡ suc s.job_count
    pub id : (r.job_spool s.job_count).id ≡ s.job_count
    pub path : (r.job_spool s.job_count).input_file_path ≢ none
    pub waits : (r.job_spool s.job_count).status ≡ created
    pub others : (k : ℕ) → k ≢ s.job_count → r.job_spool k ≡ s.job_spool k
    pub told : history r.trace ≡ turned s.job_count created ∷ (came s.job_count ∷ history s.trace)
    pub same_initialized : r.initialized ≡ s.initialized

  -- What the program can do to the table of jobs. A job is removed with one event, and only one that
  -- has ended.
  pub data Move (s r : Spooler P) : Type 0 where
    rests : r.job_count ≡ s.job_count → r.job_spool ≡ s.job_spool → IsQuiet s r → Move s r
    assigns : (i : ℕ) → Assigned i s r → Move s r
    -- The command `jobs` tells the status that a job has.
    repeats :
        (i : ℕ)
        → i < s.job_count
        → r.job_count ≡ s.job_count
        → r.job_spool ≡ s.job_spool
        → Tells (turned (s.job_spool i).id (s.job_spool i).status) s r
        → Move s r
    advances : (i : ℕ) → Advanced i s r → Move s r
    adds : Added s r → Move s r
    removes : (i : ℕ) → i < s.job_count → IsOver (s.job_spool i).status → Removed i s r → Move s r

  pub data Moves (s : Spooler P) : Spooler P → Type 0 where
    here : Moves s s
    next : {r r' : Spooler P} → Moves s r → Move r r' → Moves s r'

  pub Moves-trans : {s r r' : Spooler P} → Moves s r → Moves r r' → Moves s r'
  Moves-trans m here = m
  Moves-trans m (next m' step) = next (Moves-trans m m') step

  pub one-Move : (s r : Spooler P) → Move s r → Moves s r
  one-Move s r m = next here m

  -- What every move keeps, the moves keep.
  pub Moves-keep :
      (Q : Spooler P → Type 0)
      → ((s r : Spooler P) → Move s r → Q s → Q r)
      → {s r : Spooler P} → Moves s r
      → Q s
      → Q r
  Moves-keep Q keep here q = q
  Moves-keep Q keep (next m step) q = keep _ _ step (Moves-keep Q keep m q)

  -- run_cli stays initialized.
  Move-initialized : (s r : Spooler P) → Move s r → s.initialized ≡ true → r.initialized ≡ true
  Move-initialized s r (rests _ _ q) up = q.stays_on up
  Move-initialized s r (assigns i d) up = d.quiet.stays_on up
  Move-initialized s r (repeats i _ _ _ t) up = t.same_initialized ∙ up
  Move-initialized s r (advances i d) up = d.told.same_initialized ∙ up
  Move-initialized s r (adds d) up = d.same_initialized ∙ up
  Move-initialized s r (removes i _ _ d) up = d.same_initialized ∙ up

  pub Moves-initialized :
      {s r : Spooler P} → Moves s r → s.initialized ≡ true → r.initialized ≡ true
  Moves-initialized m up =
      Moves-keep (λ (x : Spooler P). x.initialized ≡ true) Move-initialized m up

  -- The table as it was, while nothing is told of the jobs.
  pub still :
      (s r : Spooler P)
      → r.job_count ≡ s.job_count
      → r.job_spool ≡ s.job_spool
      → history r.trace ≡ history s.trace
      → r.initialized ≡ s.initialized
      → Moves s r
  still s r count spool told on =
      one-Move s r (rests count spool (record { same_history = told; stays_on = λ up. on ∙ up }))
