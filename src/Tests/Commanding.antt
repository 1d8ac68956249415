-- ===== src/Tests/Commanding.antt =====
-- Commands.
use posix_printer_spooler.Prelude.{ℕ, ◌≡◌, ◌≢◌, ◌⊎◌, refl, inl, [], ◌∷◌, arith}
use posix_printer_spooler.Spooler.{idle}
use posix_printer_spooler.Text.{text, text_eq}
use posix_printer_spooler.Jobs.Consistency.{Holds, IsConsistent}
use posix_printer_spooler.Commands.{handle_user_command, enable_printer}
use posix_printer_spooler.Commands.Reports.{reports, handle_user_command-ReportsOnce}
use posix_printer_spooler.Commands.Enabling.{enable-IsConsistent, enable_held_breaks}
use posix_printer_spooler.Commands.Consistency.{handle_user_command-IsConsistent}
use posix_printer_spooler.Tests.States.{
  waiting, printing, waiting-IsConsistent, printing-IsConsistent,
}

handle_user_command-ReportsOnce_example :
    reports (handle_user_command (text "cancel" ∷ text "0" ∷ []) printing).trace ≡ 1
handle_user_command-ReportsOnce_example =
    handle_user_command-ReportsOnce (text "cancel") (text "0" ∷ []) printing

handle_user_command-IsConsistent_example :
    IsConsistent (handle_user_command (text "cancel" ∷ text "0" ∷ []) printing)
unfolding text_eq
handle_user_command-IsConsistent_example =
    handle_user_command-IsConsistent (text "cancel") (text "0" ∷ []) printing
      (λ e p i f. ground arith) printing-IsConsistent

enable-IsConsistent_example : IsConsistent (enable_printer 0 waiting)
enable-IsConsistent_example =
    enable-IsConsistent 0 waiting (λ i h. ground arith) waiting-IsConsistent

enable_held_breaks_example :
    Holds (enable_printer 0 printing) 0 0
    × ((((enable_printer 0 printing).printer_registry 0).status ≡ idle)
        ⊎ ((j : ℕ) × (j ≢ 0) × Holds (enable_printer 0 printing) j 0))
    × (¬ IsConsistent (enable_printer 0 printing))
enable_held_breaks_example = enable_held_breaks 0 0 printing (omega arith, inl refl, refl)
