-- ===== src/Tests/States.antt =====
-- States of the program for the tests.
use posix_printer_spooler.Prelude.{ℕ, pos, Option, none, some, [], ◌∷◌, ◌==◌, if◌then◌else◌, arith}
use posix_printer_spooler.Text.{text}
use posix_printer_spooler.Platform.{FileType}
use posix_printer_spooler.Spooler.{
  Spooler, Job, idle, busy, JobStatus, created, running, start, zero_job, zero_printer,
}
use posix_printer_spooler.Jobs.Consistency.{IsConsistent}
use posix_printer_spooler.Printers.Registry.{IsRegistry}
use posix_printer_spooler.Toy.{toy, ToyTable}

abbrev pub pdf : FileType
pdf = record { address = 1; name = text "pdf"; index = 0 }

abbrev pub ps : FileType
ps = record { address = 2; name = text "ps"; index = 1 }

abbrev pub toy_table : ToyTable
toy_table = record {
  types = pdf ∷ ps ∷ [];
  conversions = record { from = pdf; to = ps; cmd_and_args = text "pdf2ps" ∷ [] } ∷ [];
}

-- Before any command.
abbrev pub blank : Spooler toy
blank = start toy_table 100

abbrev pub job_in : JobStatus → Option ℕ → Job
job_in st target = record {
  id = 0;
  input_file_path = some (text "a.pdf");
  target_printer = target;
  status = st;
  pgid = pos 1200;
  created_at = 100;
  status_changed_at = 100;
}

-- One printer, alice, IDLE, and one job that waits.
abbrev pub waiting : Spooler toy
waiting = record blank {
  printer_registry = λ i.
      if i == 0
      then record { name = some (text "alice"); type = some ps; status = idle; other = none }
      else zero_printer;
  number_of_registered_printers = 1;
  job_spool = λ i. if i == 0 then job_in created none else zero_job;
  job_count = 1;
}

-- The same printer at work on the job.
abbrev pub printing : Spooler toy
printing = record waiting {
  printer_registry = λ i.
      if i == 0
      then record { name = some (text "alice"); type = some ps; status = busy; other = none }
      else zero_printer;
  job_spool = λ i. if i == 0 then job_in running (some 0) else zero_job;
}

pub waiting-IsRegistry : IsRegistry waiting
waiting-IsRegistry = record { bounded = omega arith; unique = λ i j p q e. omega arith }

pub waiting-IsConsistent : IsConsistent waiting
waiting-IsConsistent = record {
  bounded = omega arith;
  placed = λ i h a. ground arith;
  held = λ i p h. ground arith;
  exclusive = λ i j p g h. omega arith;
}

pub printing-IsConsistent : IsConsistent printing
printing-IsConsistent = record {
  bounded = omega arith;
  placed = λ i h a. ground arith;
  held = λ i p h. ground arith;
  exclusive = λ i j p g h. omega arith;
}
