-- ===== src/Tests/Printing.antt =====
-- Printers, submission and scheduling.
use posix_printer_spooler.Prelude.{◌≡◌, refl, success, none, some, arith, first_index, for_range}
use posix_printer_spooler.Text.{text, text_eq}
use posix_printer_spooler.Spooler.{busy, running}
use posix_printer_spooler.Printers.{
  get_printer_by_name, add_printer_to_system, select_compatible_printer,
}
use posix_printer_spooler.Printers.Registry.{add-succeeds_iff, get-add}
use posix_printer_spooler.Printers.Selection.{Selects, select-Selects}
use posix_printer_spooler.Jobs.{submit_print_job, try_scheduling_jobs, schedule_job}
use posix_printer_spooler.Jobs.Consistency.{IsConsistent, try_scheduling_jobs-IsConsistent}
use posix_printer_spooler.Jobs.Progress.{IsSettled, try_scheduling_jobs-IsSettled}
use posix_printer_spooler.Jobs.Submission.{submit_adds, submit-succeeds_iff}
use posix_printer_spooler.Jobs.Submission.Consistency.{submit-IsConsistent}
use posix_printer_spooler.Jobs.Typing.{Since}
use posix_printer_spooler.Jobs.Typing.Pass.{IsTypedIn, try_scheduling_jobs-IsTyped}
use posix_printer_spooler.Toy.{toy_forks, toy_routing, type_named, extension, toy_path}
use posix_printer_spooler.Tests.States.{pdf, waiting, waiting-IsConsistent}

bob_is_new : get_printer_by_name (text "bob") waiting ≡ none
unfolding get_printer_by_name first_index text_eq
bob_is_new = refl

add-succeeds_iff_example : (add_printer_to_system (text "bob") (text "ps") waiting).0 ≡ success
unfolding type_named
add-succeeds_iff_example =
    (add-succeeds_iff (text "bob") (text "ps") waiting).0.1 (omega arith, bob_is_new, λ e. cc)

get-add_example :
    get_printer_by_name (text "bob") (add_printer_to_system (text "bob") (text "ps") waiting).1
    ≡ some 1
get-add_example = (get-add (text "bob") (text "ps") waiting add-succeeds_iff_example).0

select-Selects_example : Selects pdf waiting (select_compatible_printer (some pdf) waiting)
select-Selects_example = select-Selects pdf waiting

-- The conversion from pdf to ps makes alice suitable.
selects_alice : select_compatible_printer (some pdf) waiting ≡ some 0
unfolding select_compatible_printer first_index text_eq toy_path
selects_alice = refl

try_scheduling_jobs-IsConsistent_example : IsConsistent (try_scheduling_jobs waiting)
try_scheduling_jobs-IsConsistent_example =
    try_scheduling_jobs-IsConsistent waiting waiting-IsConsistent

scheduled :
    (((try_scheduling_jobs waiting).job_spool 0).status ≡ running)
    × (((try_scheduling_jobs waiting).printer_registry 0).status ≡ busy)
unfolding try_scheduling_jobs for_range schedule_job first_index text_eq toy_path type_named
    extension
scheduled = (refl, refl)

try_scheduling_jobs-IsSettled_example : IsSettled (try_scheduling_jobs waiting) 0
unfolding try_scheduling_jobs for_range schedule_job first_index text_eq toy_path type_named
    extension
try_scheduling_jobs-IsSettled_example =
    try_scheduling_jobs-IsSettled toy_forks waiting 0 (omega arith)

submit_adds_example : ((submit_print_job (some (text "b.ps")) none waiting).1.job_spool 1).id ≡ 1
unfolding type_named extension
submit_adds_example = (submit_adds (text "b.ps") waiting (omega arith) (λ e. cc)).2

submit-succeeds_iff_example : (submit_print_job (some (text "b.ps")) none waiting).0 ≡ success
unfolding type_named extension
submit-succeeds_iff_example = (submit-succeeds_iff (text "b.ps") waiting).0.1 (omega arith, λ e. cc)

submit-IsConsistent_example :
    IsConsistent (submit_print_job (some (text "b.ps")) (some 0) waiting).1
submit-IsConsistent_example =
    submit-IsConsistent (text "b.ps") (some 0) waiting (λ p e. ground arith) waiting-IsConsistent

-- The job is converted from pdf to ps.
try_scheduling_jobs-IsTyped_example :
    Since (IsTypedIn waiting) waiting.trace (try_scheduling_jobs waiting).trace
try_scheduling_jobs-IsTyped_example = try_scheduling_jobs-IsTyped toy_routing waiting
