-- ===== src/Events/Silence.antt =====
-- The parts of the commands that change no job and no printer, and tell nothing of the printers.
use posix_printer_spooler.Prelude.{ℤ, String, ◌≡◌, refl, List, ◌∷◌, arith}
use posix_printer_spooler.Text.{Text}
use posix_printer_spooler.Platform.{Platform}
use posix_printer_spooler.Spooler.{Spooler, Effect, emit}
use posix_printer_spooler.Commands.{
  handle_type_command, handle_conversion_command, handle_help_command, finish_printer, finish_print,
  finish_job,
}
use posix_printer_spooler.Events.{announced, IsAnnounced, Silent, Silent-IsAnnounced}

module _ {P : Platform} where
  -- The jobs and the printers are as they were, and no event is about a printer.
  pub record Muted (s r : Spooler P) : Type 0 where
    pub silent : Silent s r
    same_jobs : r.job_count ≡ s.job_count
    same_spool : r.job_spool ≡ s.job_spool

  pub Muted-IsAnnounced : (s r : Spooler P) → Muted s r → IsAnnounced s → IsAnnounced r
  Muted-IsAnnounced s r d a =
      Silent-IsAnnounced s r d.silent
        (rw (d.same_jobs, d.same_spool, d.silent.same_printers) a.targets) a

  pub outcome-IsAnnounced :
      (e : Effect) (s : Spooler P)
      → ((name : Text) → announced name (e ∷ s.trace) ≡ announced name s.trace)
      → IsAnnounced s
      → IsAnnounced (emit e s)
  outcome-IsAnnounced e s mute a =
      Muted-IsAnnounced s (emit e s)
        (record {
          silent = record { same_printers = refl; same_registry = refl; view = mute };
          same_jobs = refl;
          same_spool = refl;
        })
        a

  pub muted :
      (s r : Spooler P)
      → r.number_of_registered_printers ≡ s.number_of_registered_printers
      → r.printer_registry ≡ s.printer_registry
      → r.job_count ≡ s.job_count
      → r.job_spool ≡ s.job_spool
      → ((name : Text) → announced name r.trace ≡ announced name s.trace)
      → IsAnnounced s
      → IsAnnounced r
  muted s r printers registry jobs spool view = Muted-IsAnnounced s r (record {
    silent = record { same_printers = printers; same_registry = registry; view = view };
    same_jobs = jobs;
    same_spool = spool;
  })

  pub type-Muted : (argv : List Text) (s : Spooler P) → Muted s (handle_type_command argv s)
  unfolding handle_type_command announced
  type-Muted argv s = record {
    silent = record {
      same_printers = ground arith;
      same_registry = ground arith;
      view = λ name. ground arith;
    };
    same_jobs = ground arith;
    same_spool = ground arith;
  }

  pub conversion-Muted :
      (argv : List Text) (s : Spooler P) → Muted s (handle_conversion_command argv s)
  unfolding handle_conversion_command announced
  conversion-Muted argv s = record {
    silent = record {
      same_printers = ground arith;
      same_registry = ground arith;
      view = λ name. ground arith;
    };
    same_jobs = ground arith;
    same_spool = ground arith;
  }

  pub help-Muted : (argv : List Text) (s : Spooler P) → Muted s (handle_help_command argv s)
  unfolding handle_help_command announced
  help-Muted argv s = record {
    silent = record {
      same_printers = ground arith;
      same_registry = ground arith;
      view = λ name. ground arith;
    };
    same_jobs = ground arith;
    same_spool = ground arith;
  }

  pub finish_printer-Muted : (name : Text) (r : ℤ × Spooler P) → Muted r.1 (finish_printer name r)
  unfolding announced
  finish_printer-Muted name (x, s) = record {
    silent = record {
      same_printers = ground arith;
      same_registry = ground arith;
      view = λ name. ground arith;
    };
    same_jobs = ground arith;
    same_spool = ground arith;
  }

  pub finish_print-Muted : (r : ℤ × Spooler P) → Muted r.1 (finish_print r)
  unfolding announced
  finish_print-Muted (x, s) = record {
    silent = record {
      same_printers = ground arith;
      same_registry = ground arith;
      view = λ name. ground arith;
    };
    same_jobs = ground arith;
    same_spool = ground arith;
  }

  pub finish_job-Muted :
      (name message : String) (job_id : ℤ) (r : ℤ × Spooler P)
      → Muted r.1 (finish_job name message job_id r)
  unfolding announced
  finish_job-Muted name message job_id (x, s) = record {
    silent = record {
      same_printers = ground arith;
      same_registry = ground arith;
      view = λ other. ground arith;
    };
    same_jobs = ground arith;
    same_spool = ground arith;
  }
