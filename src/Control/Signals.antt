-- ===== src/Control/Signals.antt =====
-- pause_job and resume_job: they signal, and leave the tables to the SIGCHLD reports.
use posix_printer_spooler.Prelude.{ℕ, ◌<◌, ◌≡◌, refl, ◌≢◌, ℤ, pos, negsuc, failure, ◌∷◌, arith}
use posix_printer_spooler.Platform.{Platform, Signal, sigstop, sigcont}
use posix_printer_spooler.Spooler.{Spooler, JobStatus, running, paused}
use posix_printer_spooler.Jobs.History.{IsQuiet}
use posix_printer_spooler.Control.{pause_job, resume_job}
use posix_printer_spooler.Control.Cancel.{signals}

module _ {P : Platform} where
  -- No job and no printer is changed, and nothing is told of the jobs.
  pub record SameTables (s r : Spooler P) : Type 0 where
    pub same_spool : r.job_spool ≡ s.job_spool
    pub same_jobs : r.job_count ≡ s.job_count
    pub same_registry : r.printer_registry ≡ s.printer_registry
    pub same_printers : r.number_of_registered_printers ≡ s.number_of_registered_printers
    pub quiet : IsQuiet s r

  -- A call that signals the group of a job in one status: for the number of a slot in use whose job
  -- is in it, the one signal is sent and the result is that of `killpg`; else it fails and does
  -- nothing.
  pub record Signals (st : JobStatus) (sig : Signal) (job_id : ℤ) (s : Spooler P)
      (x : ℤ × Spooler P) : Type 0 where
    pub tables : SameTables s x.1
    pub hit :
        (i : ℕ)
        → job_id ≡ pos i
        → i < s.job_count
        → (s.job_spool i).status ≡ st
        → (x.0 ≡ (P.killpg (s.job_spool i).pgid sig s.world).0)
          × (signals x.1.trace ≡ ((s.job_spool i).pgid, sig) ∷ signals s.trace)
    pub miss :
        ((i : ℕ) → job_id ≡ pos i → i < s.job_count → (s.job_spool i).status ≢ st)
        → x ≡ (failure, s)

  -- `pause` sends SIGSTOP to the group of a RUNNING job and changes no table.
  pub pause_job-Signals :
      (job_id : ℤ) (s : Spooler P) → Signals running sigstop job_id s (pause_job job_id s)
  unfolding pause_job
  pause_job-Signals (negsuc n) s = record {
    tables = record {
      same_spool = refl;
      same_jobs = refl;
      same_registry = refl;
      same_printers = refl;
      quiet = record { same_history = refl; stays_on = λ up. up };
    };
    hit = λ i e. ground arith;
    miss = λ h. refl;
  }
  pause_job-Signals (pos n) s = record {
    tables = record {
      same_spool = ground arith;
      same_jobs = ground arith;
      same_registry = ground arith;
      same_printers = ground arith;
      quiet = record { same_history = ground arith; stays_on = λ up. ground (arith, up) };
    };
    hit = λ i e l w. ground arith;
    miss = λ h. ground (arith, h n refl);
  }

  -- `resume` sends SIGCONT to the group of a PAUSED job and changes no table.
  pub resume_job-Signals :
      (job_id : ℤ) (s : Spooler P) → Signals paused sigcont job_id s (resume_job job_id s)
  unfolding resume_job
  resume_job-Signals (negsuc n) s = record {
    tables = record {
      same_spool = refl;
      same_jobs = refl;
      same_registry = refl;
      same_printers = refl;
      quiet = record { same_history = refl; stays_on = λ up. up };
    };
    hit = λ i e. ground arith;
    miss = λ h. refl;
  }
  resume_job-Signals (pos n) s = record {
    tables = record {
      same_spool = ground arith;
      same_jobs = ground arith;
      same_registry = ground arith;
      same_printers = ground arith;
      quiet = record { same_history = ground arith; stays_on = λ up. ground (arith, up) };
    };
    hit = λ i e l w. ground arith;
    miss = λ h. ground (arith, h n refl);
  }
