-- ===== src/Printers/Selection.antt =====
-- The choice of a printer for a file type: select_compatible_printer.
use native.Mathlib.Nat.{zero-add}
use posix_printer_spooler.Prelude.{
  ℕ, ◌<◌, ◌≡◌, ◌⊎◌, true, Option, none, some, List, arith, IsFirst, first_index-IsFirst,
}
use posix_printer_spooler.Text.{text_eq→eq, text_eq_refl}
use posix_printer_spooler.Platform.{FileType, Conversion, Platform}
use posix_printer_spooler.Spooler.{Spooler, idle, printer_type}
use posix_printer_spooler.Printers.{is_compatible, select_compatible_printer}

module _ {P : Platform} where
  -- What a printer must be to take a file of the type: registered, IDLE, and of that type or at the
  -- end of a conversion path from it.
  pub record Suitable (from_type : FileType) (s : Spooler P) (p : ℕ) : Type 0 where
    pub registered : p < s.number_of_registered_printers
    pub is_free : (s.printer_registry p).status ≡ idle
    pub reachable :
        (printer_type p s ≡ from_type.name)
        ⊎ ((path : List Conversion) × (P.find_conversion_path from_type.name
                (printer_type p s)
                s.table
              ≡ some path))

  compatible→Suitable :
      (t : FileType) (s : Spooler P) (p : ℕ)
      → p < s.number_of_registered_printers
      → is_compatible t s p ≡ true
      → Suitable t s p
  compatible→Suitable t s p h c = record {
    registered = h;
    is_free = ground arith;
    reachable = ground (arith, text_eq→eq (printer_type p s) t.name);
  }

  Suitable→compatible :
      (t : FileType) (s : Spooler P) (p : ℕ) → Suitable t s p → is_compatible t s p ≡ true
  Suitable→compatible t s p h = ground (arith, text_eq_refl t.name, h.is_free, h.reachable)

  -- What the choice of a printer promises.
  abbrev pub Selects : FileType → Spooler P → Option ℕ → Type 0
  Selects t s none = (p : ℕ) → ¬ Suitable t s p
  Selects t s (some p) = Suitable t s p × ((q : ℕ) → q < p → ¬ Suitable t s q)

  Selects-of_IsFirst :
      (t : FileType) (s : Spooler P) (r : Option ℕ)
      → IsFirst (is_compatible t s) 0 s.number_of_registered_printers r
      → Selects t s r
  Selects-of_IsFirst t s none h =
      λ p c. ground (arith, h p, Suitable→compatible t s p c, c.registered)
  Selects-of_IsFirst t s (some k) h = (
    compatible→Suitable t s k h.1 h.2,
    λ q l c. ground (arith, h.3 q, Suitable→compatible t s q c),
  )

  -- The printer chosen is suitable and the first such one, and none is chosen only if no printer is
  -- suitable.
  pub select-Selects :
      (t : FileType) (s : Spooler P) → Selects t s (select_compatible_printer (some t) s)
  unfolding select_compatible_printer
  select-Selects t s =
      Selects-of_IsFirst t s _
        (rw zero-add at (first_index-IsFirst (is_compatible t s) s.number_of_registered_printers 0))
