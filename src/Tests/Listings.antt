-- ===== src/Tests/Listings.antt =====
-- What is printed.
use posix_printer_spooler.Prelude.{◌≡◌, refl, ◌++◌, none, some, [], ◌∷◌}
use posix_printer_spooler.Text.{Text, text}
use posix_printer_spooler.Spooler.{
  Spooler, start, PrinterStatus, disabled, idle, busy, created, running, paused, finished, aborted,
  deleted, printer_line, job_line,
}
use posix_printer_spooler.Numbers.Decimal.{decimal, digits_onto}
use posix_printer_spooler.Tokens.Layout.{IsWord}
use posix_printer_spooler.Commands.{handle_printers_command}
use posix_printer_spooler.Output.{Names, render, output}
use posix_printer_spooler.Output.Fields.{read_printers}
use posix_printer_spooler.Output.Listing.{listing, entries}
use posix_printer_spooler.Output.Session.{run_main-printers_read}
use posix_printer_spooler.Cli.{line, run_main}
use posix_printer_spooler.Toy.{toy, toy_finds}
use posix_printer_spooler.Tests.States.{toy_table}

abbrev toy_names : Names
toy_names = record {
  printer_status_names =
      λ st. elim st [ disabled ↦ text "disabled" | idle ↦ text "idle" | busy ↦ text "busy" ];
  job_status_names = λ st. elim st [
    | created ↦ text "created"
    | running ↦ text "running"
    | paused ↦ text "paused"
    | finished ↦ text "finished"
    | aborted ↦ text "aborted"
    | deleted ↦ text "deleted"
  ];
  strftime = decimal;
}

legible : (st : PrinterStatus) → IsWord (toy_names.printer_status_names st)
legible disabled = (refl, (refl, (refl, (refl, (refl, (refl, (refl, (refl, tt))))))))
legible idle = (refl, (refl, (refl, (refl, tt))))
legible busy = (refl, (refl, (refl, (refl, tt))))

-- The line of one printer, and of one job that has none.
rendered :
    (render toy_names (printer_line 3 (text "Alice") (text "pdf") busy)
      ≡ text "PRINTER: id=3, name=Alice, type=pdf, status=busy\n")
    × (render toy_names (job_line 12 (text "pdf") 5 6 created (text "a.pdf") none)
        ≡ text "JOB[12]: type=pdf, creation(5), status(6)=created, eligible=ffffffff, file=a.pdf\n")
unfolding render digits_onto
rendered = (refl, refl)

-- Two printers are registered from a file, and one by the user.
abbrev registrations : Text
registrations = text "printer alice pdf\nprinter bob ps\nenable bob\n"

abbrev session : Spooler toy
session = run_main (some registrations) (line (text "printer carol ps") ∷ []) (start toy_table 100)

run_main-printers_read_example :
    let n = session.number_of_registered_printers in
    (output toy_names (handle_printers_command session).trace
      ≡ output toy_names session.trace ++ listing toy_names n 0 session.printer_registry)
    × (read_printers (listing toy_names n 0 session.printer_registry)
        ≡ entries toy_names n 0 session.printer_registry)
run_main-printers_read_example =
    run_main-printers_read toy_names toy legible toy_finds (some registrations)
      (line (text "printer carol ps") ∷ []) toy_table 100
