-- ===== src/Printers.antt =====
-- src/printer_manager.c: the registry of printers. A `PRINTER *` is the index of its slot.
pub mod Registry
pub mod Selection
use posix_printer_spooler.Prelude.{
  ℕ, suc, ℤ, pos, negsuc, success, failure, Bool, true, false, ◌&&◌, ◌||◌, Option, none, some, List,
  leb, ltb, if◌then◌else◌, first_index, for_range,
}
use posix_printer_spooler.Text.{Text, text_eq}
use posix_printer_spooler.Platform.{FileType, Conversion, Platform}
use posix_printer_spooler.Spooler.{
  Printer, PrinterStatus, disabled, idle, busy, Spooler, max_printers, deref, type_name, update,
  emit, printer_defined, printer_name, printer_type,
}

abbrev pub is_idle : PrinterStatus → Bool
is_idle idle = true
is_idle disabled = false
is_idle busy = false

abbrev pub is_some {ℓ} : {A : Type ℓ} → Option A → Bool
is_some none = false
is_some (some a) = true

-- A slot is never NULL, so the test `if (!printer) continue;` of the loops never fires.
module _ {P : Platform} where
  clear_printer : ℕ → Spooler P → Spooler P
  clear_printer i s = record s {
    printer_registry =
        update s.printer_registry i
          (record { name = none; type = none; status = disabled; other = none });
  }

  unfoldable pub printer_manager_cleanup : Spooler P → Spooler P
  unfolding clear_printer for_range
  printer_manager_cleanup s = record (for_range clear_printer s.number_of_registered_printers 0 s) {
    number_of_registered_printers = 0;
  }

  unfoldable pub printer_manager_initialize : Spooler P → Spooler P
  unfolding printer_manager_cleanup
  printer_manager_initialize s = record (printer_manager_cleanup s) {
    number_of_registered_printers = 0;
  }

  abbrev pub get_printer_count : Spooler P → ℕ
  get_printer_count s = s.number_of_registered_printers

  -- The test of the loop in `get_printer_by_name`.
  abbrev pub has_name : Text → Spooler P → ℕ → Bool
  has_name name s i = text_eq (deref (s.printer_registry i).name) name

  unfoldable pub get_printer_by_name : Text → Spooler P → Option ℕ
  get_printer_by_name name s = first_index (has_name name s) s.number_of_registered_printers 0

  unfoldable pub get_printer_by_index : ℤ → Spooler P → Option ℕ
  get_printer_by_index (negsuc i) s = none
  get_printer_by_index (pos i) s = if leb s.number_of_registered_printers i then none else some i

  -- The tests of the loop in `select_compatible_printer`.
  abbrev pub is_compatible : FileType → Spooler P → ℕ → Bool
  is_compatible from_type s i =
      is_idle (s.printer_registry i).status
      && (text_eq (printer_type i s) from_type.name
          || is_some (P.find_conversion_path from_type.name (printer_type i s) s.table))

  unfoldable pub select_compatible_printer : Option FileType → Spooler P → Option ℕ
  select_compatible_printer none s = none
  select_compatible_printer (some from_type) s =
      first_index (is_compatible from_type s) (get_printer_count s) 0

  -- The end of `add_printer_to_system`: the new slot, the count, the event.
  abbrev pub register_printer : Text → FileType → Spooler P → Spooler P
  register_printer name type s = emit (printer_defined name type.name) (record s {
    printer_registry =
        update s.printer_registry s.number_of_registered_printers
          (record { name = some name; type = some type; status = disabled; other = none });
    number_of_registered_printers = suc s.number_of_registered_printers;
  })

  unfoldable pub add_printer_to_system : Text → Text → Spooler P → ℤ × Spooler P
  add_printer_to_system name type s =
      if leb max_printers s.number_of_registered_printers
      then (failure, s)
      else if is_some (get_printer_by_name name s)
      then (failure, s)
      else elim (P.find_type type s.table) [
        | none ↦ (failure, s)
        | some resolved ↦ (success, register_printer name resolved s)
      ]
