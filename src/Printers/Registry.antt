-- ===== src/Printers/Registry.antt =====
-- Registration and lookup of printers by name: add_printer_to_system, get_printer_by_name.
use native.Mathlib.Nat.{zero-add}
use posix_printer_spooler.Prelude.{
  ℤ, ℕ, suc, ◌≤◌, ◌<◌, ◌≡◌, ◌∙◌, ◌≢◌, ◌↔◌, ◌⊎◌, inl, inr, success, failure, false, none, some,
  arith, leb, IsFirst, first_index-IsFirst, IsFirst-unique, IsFirst-extend, Bool-cases,
  Option-cases,
}
use posix_printer_spooler.Text.{Text, text_eq→eq, text_eq_refl}
use posix_printer_spooler.Platform.{FileType, Platform}
use posix_printer_spooler.Spooler.{Spooler, disabled, max_printers, deref}
use posix_printer_spooler.Printers.{
  has_name, get_printer_by_name, add_printer_to_system, register_printer,
}

module _ {P : Platform} where
  -- The registry's invariant: it fits its array, and no two printers have one name.
  pub record IsRegistry (s : Spooler P) : Type 0 where
    pub bounded : s.number_of_registered_printers ≤ max_printers
    pub unique :
        (i j : ℕ)
        → i < s.number_of_registered_printers
        → j < s.number_of_registered_printers
        → deref (s.printer_registry i).name ≡ deref (s.printer_registry j).name
        → i ≡ j

  get-IsFirst :
      (name : Text) (s : Spooler P)
      → IsFirst (has_name name s) 0 s.number_of_registered_printers (get_printer_by_name name s)
  unfolding get_printer_by_name
  get-IsFirst name s =
      rw zero-add at (first_index-IsFirst (has_name name s) s.number_of_registered_printers 0)

  pub get_printer_lt :
      (name : Text) (s : Spooler P) (p : ℕ)
      → get_printer_by_name name s ≡ some p
      → p < s.number_of_registered_printers
  get_printer_lt name s p found = (rw found at (get-IsFirst name s)).1

  pub add_cases {κ} :
      (Q : ℤ × Spooler P → Type κ) (name type : Text) (s : Spooler P)
      → ((max_printers ≤ s.number_of_registered_printers)
            ⊎ (get_printer_by_name name s ≢ none)
            ⊎ (P.find_type type s.table ≡ none)
          → Q (failure, s))
      → ((t : FileType)
          → s.number_of_registered_printers < max_printers
          → get_printer_by_name name s ≡ none
          → P.find_type type s.table ≡ some t
          → Q (success, register_printer name t s))
      → Q (add_printer_to_system name type s)
  unfolding add_printer_to_system
  add_cases Q name type s bad good =
      elim (Bool-cases (leb max_printers s.number_of_registered_printers)) [
        | inl full ↦ rw full (bad (inl (ground arith)))
        | inr room ↦ elim (Option-cases (get_printer_by_name name s)) [
          | inr (p, found) ↦ rw (room, found) (bad (inr (inl (λ e. cc))))
          | inl fresh ↦ elim (Option-cases (P.find_type type s.table)) [
            | inl unknown ↦ rw (room, fresh, unknown) (bad (inr (inr unknown)))
            | inr (t, known) ↦ rw (room, fresh, known) (good t (ground arith) fresh known)
          ]
        ]
      ]

  -- Registration succeeds exactly when there is room, the name is new and the type is declared; one
  -- that fails changes nothing.
  pub add-succeeds_iff :
      (name type : Text) (s : Spooler P)
      → (((add_printer_to_system name type s).0 ≡ success) ↔ (
          (s.number_of_registered_printers < max_printers)
          × (get_printer_by_name name s ≡ none)
          × (P.find_type type s.table ≢ none)))
        × ((add_printer_to_system name type s).0 ≢ success
            → add_printer_to_system name type s ≡ (failure, s))
  unfolding add_printer_to_system
  add-succeeds_iff name type s = ((λ h. ground arith, λ h. ground arith), λ h. ground arith)

  same_names :
      (name : Text) (t : FileType) (other : Text) (s : Spooler P) (j : ℕ)
      → j < s.number_of_registered_printers
      → has_name other (register_printer name t s) j ≡ has_name other s j
  same_names name t other s j h = ground arith

  no_printer_named :
      (name : Text) (s : Spooler P)
      → get_printer_by_name name s ≡ none
      → (j : ℕ) → j < s.number_of_registered_printers
      → has_name name s j ≡ false
  no_printer_named name s fresh j h = (rw fresh at (get-IsFirst name s)) j (omega arith) h

  get-register :
      (name : Text) (t : FileType) (s : Spooler P)
      → get_printer_by_name name s ≡ none
      → get_printer_by_name name (register_printer name t s) ≡ some s.number_of_registered_printers
  get-register name t s fresh =
      IsFirst-unique (has_name name (register_printer name t s)) 0
        (suc s.number_of_registered_printers) _ (some s.number_of_registered_printers)
        (get-IsFirst name (register_printer name t s))
        (
          omega arith,
          omega arith,
          ground (arith, text_eq_refl name),
          λ j _ h. same_names name t name s j h ∙ no_printer_named name s fresh j h,
        )

  get-register_ne :
      (name : Text) (t : FileType) (other : Text) (s : Spooler P)
      → other ≢ name
      → get_printer_by_name other (register_printer name t s) ≡ get_printer_by_name other s
  get-register_ne name t other s ne =
      IsFirst-unique (has_name other (register_printer name t s)) 0
        (suc s.number_of_registered_printers) _ (get_printer_by_name other s)
        (get-IsFirst other (register_printer name t s))
        (IsFirst-extend (has_name other s) (has_name other (register_printer name t s)) _ _
          (same_names name t other s) (ground (arith, text_eq→eq name other)) (get-IsFirst other s))

  -- After a registration that succeeds, the name finds the new printer, in the first free slot,
  -- DISABLED and of the type declared under the type's name; every other name finds what it found
  -- before, and every other slot is as it was.
  pub get-add :
      (name type : Text) (s : Spooler P)
      → (add_printer_to_system name type s).0 ≡ success
      → let n = s.number_of_registered_printers in
        let s' = (add_printer_to_system name type s).1 in
        (get_printer_by_name name s' ≡ some n)
        × ((s'.printer_registry n).status ≡ disabled)
        × ((s'.printer_registry n).type ≡ P.find_type type s.table)
        × ((other : Text)
            → other ≢ name
            → get_printer_by_name other s' ≡ get_printer_by_name other s)
        × ((j : ℕ) → j ≢ n → s'.printer_registry j ≡ s.printer_registry j)
  get-add name type s =
      add_cases
        (λ r.
          r.0 ≡ success
          → let n = s.number_of_registered_printers in
            (get_printer_by_name name r.1 ≡ some n)
            × ((r.1.printer_registry n).status ≡ disabled)
            × ((r.1.printer_registry n).type ≡ P.find_type type s.table)
            × ((other : Text)
                → other ≢ name
                → get_printer_by_name other r.1 ≡ get_printer_by_name other s)
            × ((j : ℕ) → j ≢ n → r.1.printer_registry j ≡ s.printer_registry j))
        name type s (λ _ h. cc)
        (λ t _ fresh known _. (
          get-register name t s fresh,
          ground arith,
          ground arith,
          λ other ne. get-register_ne name t other s ne,
          λ j ne. ground arith,
        ))

  pub register-IsRegistry :
      (name : Text) (t : FileType) (s : Spooler P)
      → s.number_of_registered_printers < max_printers
      → get_printer_by_name name s ≡ none
      → IsRegistry s
      → IsRegistry (register_printer name t s)
  register-IsRegistry name t s room fresh r = record {
    bounded = omega arith;
    unique = λ i j p q e. ground (
      arith,
      r.unique i j,
      no_printer_named name s fresh i,
      no_printer_named name s fresh j,
      text_eq_refl name,
    );
  }

  -- A registration keeps the registry within its array and its names distinct, whatever its result.
  pub add-IsRegistry :
      (name type : Text) (s : Spooler P)
      → IsRegistry s
      → IsRegistry (add_printer_to_system name type s).1
  add-IsRegistry name type s r =
      add_cases (λ x. IsRegistry x.1) name type s (λ _. r)
        (λ t room fresh _. register-IsRegistry name t s room fresh r)
