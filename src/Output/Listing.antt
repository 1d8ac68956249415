-- ===== src/Output/Listing.antt =====
-- What the command `printers` prints, read back.
use mathlib.Core.List.{append-nil, append_assoc}
use posix_printer_spooler.Prelude.{
  ℕ, zero, suc, ◌+◌, ◌<◌, ◌≡◌, refl, sym, ap, ◌∙◌, pos, List, [], ◌∷◌, ◌++◌, arith, for_range,
}
use posix_printer_spooler.Text.{Text}
use posix_printer_spooler.Platform.{Platform}
use posix_printer_spooler.Spooler.{PrinterStatus, Printer, Spooler, deref, type_name}
use posix_printer_spooler.Tokens.Layout.{IsWord, IsLayout, lay_out, firsts, lay_out-words}
use posix_printer_spooler.Commands.{list_printer, handle_printers_command}
use posix_printer_spooler.Output.{Names, format_printer, output}
use posix_printer_spooler.Output.Fields.{
  Entry, read_entries, read_printers, fields, lay_out-fields, fields-IsLayout, read-fields,
}

-- The names and the types of the printers are words, as the tokens of a line are.
abbrev pub AreNamed : ℕ → (ℕ → Printer) → Type 0
AreNamed n registry =
    (k : ℕ) → k < n → IsWord (deref (registry k).name) × IsWord (type_name (registry k).type)

module _ (N : Names) where
  -- What the registry holds of the printer in slot `i`.
  abbrev pub entry : ℕ → Printer → Entry
  entry i p = record {
    id = pos i;
    name = deref p.name;
    type = type_name p.type;
    status = N.printer_status_names p.status;
  }

  -- `n` slots from slot `i` on.
  abbrev pub entries : ℕ → ℕ → (ℕ → Printer) → List Entry
  entries zero i registry = []
  entries (suc n) i registry = entry i (registry i) ∷ entries n (suc i) registry

  -- The lines for these slots.
  abbrev pub listing : ℕ → ℕ → (ℕ → Printer) → Text
  listing zero i registry = []
  listing (suc n) i registry =
      let p = registry i in
      format_printer N i (deref p.name) (type_name p.type) p.status ++ listing n (suc i) registry

  layout : ℕ → ℕ → (ℕ → Printer) → List (Text × Text)
  layout zero i registry = []
  layout (suc n) i registry =
      let p = registry i in
      fields N i (deref p.name) (type_name p.type) p.status ++ layout n (suc i) registry

  lay_out-layout :
      (n i : ℕ) (registry : ℕ → Printer) → lay_out (layout n i registry) ≡ listing n i registry
  unfolding layout
  lay_out-layout zero i registry = refl
  lay_out-layout (suc n) i registry =
      let p = registry i in
      lay_out-fields N i (deref p.name) (type_name p.type) p.status (layout n (suc i) registry)
      ∙ ap (λ r. format_printer N i (deref p.name) (type_name p.type) p.status ++ r)
          (lay_out-layout n (suc i) registry)

  module _ (legible : (st : PrinterStatus) → IsWord (N.printer_status_names st)) where
    layout-IsLayout :
        (n i : ℕ) (registry : ℕ → Printer)
        → ((k : ℕ)
            → k < n + i
            → IsWord (deref (registry k).name) × IsWord (type_name (registry k).type))
        → IsLayout (layout n i registry)
    unfolding layout
    layout-IsLayout zero i registry named = tt
    layout-IsLayout (suc n) i registry named =
        let p = registry i in
        let (hn, ht) = named i (omega arith) in
        fields-IsLayout N i (deref p.name) (type_name p.type) p.status (layout n (suc i) registry)
          hn ht (legible p.status)
          (layout-IsLayout n (suc i) registry (λ k h. named k (omega arith)))

    read-layout :
        (n i : ℕ) (registry : ℕ → Printer)
        → read_entries (firsts (layout n i registry)) ≡ entries n i registry
    unfolding layout read_entries
    read-layout zero i registry = refl
    read-layout (suc n) i registry =
        let p = registry i in
        read-fields N i (deref p.name) (type_name p.type) p.status (layout n (suc i) registry)
        ∙ ap (λ r. entry i p ∷ r) (read-layout n (suc i) registry)

  module _ {P : Platform} where
    list_printers-output :
        (n i : ℕ) (s : Spooler P)
        → output N (for_range list_printer n i s).trace
          ≡ output N s.trace ++ listing n i s.printer_registry
    unfolding for_range output
    list_printers-output zero i s = sym (append-nil _)
    list_printers-output (suc n) i s =
        list_printers-output n (suc i) (list_printer i s) ∙ append_assoc (output N s.trace) _ _

    -- The text that `printers` prints is the lines of the registered printers, in the order of their
    -- slots; and where their names, their types and the names of the statuses are words, the number,
    -- the name, the type and the status of every printer can be read back from it.
    pub printers-read :
        (s : Spooler P)
        → ((st : PrinterStatus) → IsWord (N.printer_status_names st))
        → AreNamed s.number_of_registered_printers s.printer_registry
        → (output N (handle_printers_command s).trace
            ≡ output N s.trace ++ listing s.number_of_registered_printers 0 s.printer_registry)
          × (read_printers (listing s.number_of_registered_printers 0 s.printer_registry)
              ≡ entries s.number_of_registered_printers 0 s.printer_registry)
    unfolding handle_printers_command output read_printers
    printers-read s legible named =
        let n = s.number_of_registered_printers in
        let reg = s.printer_registry in
        (
          list_printers-output n 0 s,
          ap read_printers (sym (lay_out-layout n 0 reg))
              ∙ ap read_entries (
                  lay_out-words (layout n 0 reg)
                    (layout-IsLayout legible n 0 reg (λ k h. named k (omega arith))))
              ∙ read-layout legible n 0 reg,
        )
