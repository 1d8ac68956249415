-- ===== src/Spooler.antt =====
-- The state of the program: include/printer_struct.h, include/job_struct.h, include/presi.h and the
-- static variables of src/printer_manager.c, src/job_manager.c and src/cli.c.
-- The event functions, the signals sent, the processes forked and the lines printed are recorded in
-- `trace`, the newest first. No second thread exists, so the mutex of src/job_manager.c is left out.
use posix_printer_spooler.Prelude.{
  ℕ, ℤ, pos, String, Bool, false, Option, none, some, List, [], ◌∷◌, ◌==◌, if◌then◌else◌,
}
use posix_printer_spooler.Text.{Text}
use posix_printer_spooler.Platform.{FileType, Conversion, Signal, Platform}

pub data PrinterStatus : Type 0 where
  disabled idle busy : PrinterStatus

pub data JobStatus : Type 0 where
  created running paused finished aborted deleted : JobStatus

abbrev pub max_printers : ℕ
max_printers = 32

abbrev pub max_jobs : ℕ
max_jobs = 64

-- A pointer that is NULL in an unused slot is an option. `other` is never read.
pub record Printer : Type 0 where
  pub name : Option Text
  pub type : Option FileType
  pub status : PrinterStatus
  pub other : Option ℕ

-- `target_printer` points into the printer registry: it is the index of the slot.
pub record Job : Type 0 where
  pub id : ℕ
  pub input_file_path : Option Text
  pub target_printer : Option ℕ
  pub status : JobStatus
  pub pgid : ℤ
  pub created_at : ℕ
  pub status_changed_at : ℕ

-- Reading a string through a pointer. Through NULL it is undefined in C, and never done: a slot in
-- use holds its strings.
abbrev pub deref : Option Text → Text
deref none = []
deref (some s) = s

abbrev pub type_name : Option FileType → Text
type_name none = []
type_name (some t) = t.name

-- The lines that the program prints: one constructor for each format string.
pub data Line : Type 0 where
  wrong_number_of_args : ℕ → ℕ → String → Line
  command_error : String → String → Line
  undeclared_file_type unknown_file_type unrecognized_command : Text → Line
  commands_are : Line
  supported_commands : Line
  printer_line : ℕ → Text → Text → PrinterStatus → Line
  job_line : ℕ → Text → ℕ → ℕ → JobStatus → Text → Option Text → Line
  requires_job_id : String → Line
  failed_job : String → ℤ → Line

pub data Effect : Type 0 where
  cmd_ok : Effect
  cmd_error : String → Effect
  printer_defined : Text → Text → Effect
  printer_status : Text → PrinterStatus → Effect
  job_created : ℕ → Text → Text → Effect
  job_started : ℕ → Text → ℤ → List Text → Effect
  job_finished job_aborted : ℕ → ℕ → Effect
  job_deleted : ℕ → Effect
  job_status : ℕ → JobStatus → Effect
  killed : ℤ → Signal → Effect
  forked : ℤ → Job → Option (List Conversion) → Effect
  printed : Line → Effect

pub record Spooler (P : Platform) : Type 0 where
  pub table : P.Table
  pub world : P.World
  pub printer_registry : ℕ → Printer
  pub number_of_registered_printers : ℕ
  pub job_spool : ℕ → Job
  pub job_count : ℕ
  pub child_signal_received : Bool
  pub initialized : Bool
  pub trace : List Effect

-- Static storage starts as zeros: the enumerators of value 0 are `disabled` and `created`.
abbrev pub zero_printer : Printer
zero_printer = record { name = none; type = none; status = disabled; other = none }

abbrev pub zero_job : Job
zero_job = record {
  id = 0;
  input_file_path = none;
  target_printer = none;
  status = created;
  pgid = pos 0;
  created_at = 0;
  status_changed_at = 0;
}

-- A write to one slot of an array.
abbrev pub update {ℓ} : {A : Type ℓ} → (ℕ → A) → ℕ → A → ℕ → A
update a i v j = if j == i then v else a j

-- `x ▷ f` is `f x`: the steps of a function in the order in which they are made.
infixl 2 ◌▷◌
abbrev pub ◌▷◌ {ℓ κ} : {A : Type ℓ} {B : Type κ} → A → (A → B) → B
x ▷ f = f x

module _ {P : Platform} where
  -- The program before `run_cli`.
  abbrev pub start : P.Table → P.World → Spooler P
  start t w = record {
    table = t;
    world = w;
    printer_registry = λ i. zero_printer;
    number_of_registered_printers = 0;
    job_spool = λ i. zero_job;
    job_count = 0;
    child_signal_received = false;
    initialized = false;
    trace = [];
  }

  abbrev pub emit : Effect → Spooler P → Spooler P
  emit e s = record s { trace = e ∷ s.trace }

  -- The slot that a `PRINTER *` points to, and a write of its status.
  abbrev pub set_printer_status : ℕ → PrinterStatus → Spooler P → Spooler P
  set_printer_status i st s = record s {
    printer_registry = update s.printer_registry i (record (s.printer_registry i) { status = st });
  }

  abbrev pub set_job : ℕ → Job → Spooler P → Spooler P
  set_job i j s = record s { job_spool = update s.job_spool i j }

  -- The names that the messages about a printer hold.
  abbrev pub printer_name : ℕ → Spooler P → Text
  printer_name i s = deref (s.printer_registry i).name

  abbrev pub printer_type : ℕ → Spooler P → Text
  printer_type i s = type_name (s.printer_registry i).type

  -- `time(NULL)` and `killpg`, with the state that they leave.
  abbrev pub time_now : Spooler P → ℕ × Spooler P
  time_now s = let (t, w) = P.time s.world in (t, record s { world = w })

  abbrev pub kill_group : ℤ → Signal → Spooler P → ℤ × Spooler P
  kill_group pgid sig s =
      let (r, w) = P.killpg pgid sig s.world in (r, emit (killed pgid sig) (record s { world = w }))
