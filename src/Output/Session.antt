-- ===== src/Output/Session.antt =====
-- What the command `printers` prints after a whole run.
use posix_printer_spooler.Prelude.{◌≡◌, ◌++◌, Option, some, List}
use posix_printer_spooler.Text.{Text}
use posix_printer_spooler.Platform.{Platform, FileType}
use posix_printer_spooler.Spooler.{PrinterStatus, Spooler, deref, type_name, start}
use posix_printer_spooler.Tokens.Layout.{IsWord}
use posix_printer_spooler.Commands.{handle_printers_command}
use posix_printer_spooler.Cli.{Input, run_main}
use posix_printer_spooler.Registered.Commands.{Enrols}
use posix_printer_spooler.Registered.Session.{run_main-AreRegistered}
use posix_printer_spooler.Output.{Names, output}
use posix_printer_spooler.Output.Fields.{read_printers}
use posix_printer_spooler.Output.Listing.{listing, entries, printers-read}

-- The name and the type of a printer are words.
abbrev Legible : Option Text → Option FileType → Type 0
Legible name type = IsWord (deref name) × IsWord (type_name type)

-- What is documented of `find_type`: it returns the type of the name that is given.
abbrev pub FindsByName : Platform → Type 0
FindsByName P =
    (name : Text) (table : P.Table) (t : FileType) → P.find_type name table ≡ some t → t.name ≡ name

Legible-enrolled : (P : Platform) → FindsByName P → Enrols P Legible
Legible-enrolled P finds name type t table named typed found =
    (named, rw (finds type table t found) typed)

-- In a run of `main` on any file, or none, and then on any inputs, the command `printers` prints the
-- lines of the registered printers, in the order of their slots, and the number, the name, the type
-- and the status of every printer can be read back from them: where `find_type` finds types by
-- their names, and the names of the statuses are words.
pub run_main-printers_read :
    (N : Names) (P : Platform)
    → ((st : PrinterStatus) → IsWord (N.printer_status_names st))
    → FindsByName P
    → (file : Option Text) (inputs : List Input) (t : P.Table) (w : P.World)
    → let s : Spooler P = run_main file inputs (start t w) in
      let n = s.number_of_registered_printers in
      (output N (handle_printers_command s).trace
        ≡ output N s.trace ++ listing N n 0 s.printer_registry)
      × (read_printers (listing N n 0 s.printer_registry) ≡ entries N n 0 s.printer_registry)
run_main-printers_read N P legible finds file inputs t w =
    printers-read N (run_main file inputs (start t w)) legible
      (run_main-AreRegistered P Legible (Legible-enrolled P finds) file inputs t w)
