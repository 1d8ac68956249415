-- ===== src/Output/Fields.antt =====
-- The fields of the lines about printers, as words.
use mathlib.Core.List.{append_assoc}
use posix_printer_spooler.Prelude.{ℕ, zero, suc, ◌≡◌, refl, ap, ℤ, pos, false, List, [], ◌∷◌, ◌++◌}
use posix_printer_spooler.Text.{Text, text}
use posix_printer_spooler.Spooler.{PrinterStatus}
use posix_printer_spooler.Tokens.Words.{words}
use posix_printer_spooler.Tokens.Layout.{AllBytes, IsWord, IsLayout, lay_out, firsts}
use posix_printer_spooler.Numbers.{atoi}
use posix_printer_spooler.Numbers.Decimal.{
  decimal, decimal-IsNumeral, IsNumeral-IsWord, atoi-decimal,
}
use posix_printer_spooler.Output.{Names, format_printer}

-- What a line says of a printer.
pub record Entry : Type 0 where
  pub id : ℤ
  pub name : Text
  pub type : Text
  pub status : Text

-- A reader of such lines: their words are five for each printer, `PRINTER:`, then `id=`, `name=` and
-- `type=` with a comma behind, and `status=`.
abbrev pub drop : ℕ → Text → Text
drop zero w = w
drop (suc n) [] = []
drop (suc n) (c ∷ w) = drop n w

abbrev pub drop_last : Text → Text
drop_last [] = []
drop_last (c ∷ []) = []
drop_last (c ∷ d ∷ w) = c ∷ drop_last (d ∷ w)

unfoldable pub read_entries : List Text → List Entry
read_entries (head ∷ id ∷ name ∷ type ∷ status ∷ rest) =
    (record {
      id = atoi (drop_last (drop 3 id));
      name = drop_last (drop 5 name);
      type = drop_last (drop 5 type);
      status = drop 7 status;
    })
    ∷ read_entries rest
read_entries _ = []

unfoldable pub read_printers : Text → List Entry
unfolding read_entries
read_printers lines = read_entries (words lines)

drop_last-append : (w : Text) (c : ℕ) → drop_last (w ++ (c ∷ [])) ≡ w
drop_last-append [] c = refl
drop_last-append (b ∷ []) c = refl
drop_last-append (b ∷ d ∷ w) c = ap (λ v. b ∷ v) (drop_last-append (d ∷ w) c)

AllBytes-append : (v w : Text) → AllBytes false v → AllBytes false w → AllBytes false (v ++ w)
AllBytes-append [] w hv hw = hw
AllBytes-append (c ∷ v) w (h, hv) hw = (h, AllBytes-append v w hv hw)

IsWord-AllBytes : (w : Text) → IsWord w → AllBytes false w
IsWord-AllBytes [] h = absurd h
IsWord-AllBytes (c ∷ w) h = h

module _ (N : Names) where
  -- The words of a line about a printer, each with the white space behind it.
  abbrev pub fields : ℕ → Text → Text → PrinterStatus → List (Text × Text)
  fields id name type status =
      (text "PRINTER:", text " ")
      ∷ (text "id=" ++ (decimal id ++ text ","), text " ")
      ∷ (text "name=" ++ (name ++ text ","), text " ")
      ∷ (text "type=" ++ (type ++ text ","), text " ")
      ∷ (text "status=" ++ N.printer_status_names status, text "\n")
      ∷ []

  pub lay_out-fields :
      (id : ℕ) (name type : Text) (status : PrinterStatus) (more : List (Text × Text))
      → lay_out (fields id name type status ++ more)
        ≡ format_printer N id name type status ++ lay_out more
  lay_out-fields id name type status more = simp append_assoc

  pub fields-IsLayout :
      (id : ℕ) (name type : Text) (status : PrinterStatus) (more : List (Text × Text))
      → IsWord name
      → IsWord type
      → IsWord (N.printer_status_names status)
      → IsLayout more
      → IsLayout (fields id name type status ++ more)
  fields-IsLayout id name type status more hn ht hs h =
      let comma = λ (w : Text) (hw : IsWord w).
        AllBytes-append w (text ",") (IsWord-AllBytes w hw) (refl, tt) in
      let number = comma (decimal id) (IsNumeral-IsWord (decimal id) (decimal-IsNumeral id)) in
      (
        (refl, (refl, (refl, (refl, (refl, (refl, (refl, (refl, tt)))))))),
        (refl, tt),
        (
          (refl, (refl, (refl, number))),
          (refl, tt),
          (
            (refl, (refl, (refl, (refl, (refl, comma name hn))))),
            (refl, tt),
            (
              (refl, (refl, (refl, (refl, (refl, comma type ht))))),
              (refl, tt),
              (
                (refl, (refl, (refl, (refl, (refl, (refl, (refl, IsWord-AllBytes _ hs))))))),
                (refl, tt),
                h,
              ),
            ),
          ),
        ),
      )

  pub read-fields :
      (id : ℕ) (name type : Text) (status : PrinterStatus) (more : List (Text × Text))
      → read_entries (firsts (fields id name type status ++ more))
        ≡ (record { id = pos id; name = name; type = type; status = N.printer_status_names status })
          ∷ read_entries (firsts more)
  unfolding read_entries
  read-fields id name type status more =
      rw
        (
          drop_last-append (decimal id) b',',
          drop_last-append name b',',
          drop_last-append type b',',
          atoi-decimal id,
        )
        refl
