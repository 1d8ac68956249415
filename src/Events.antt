-- ===== src/Events.antt =====
-- What the event functions of include/presi.h tell of the printers, against their state: an observer
-- that reads sf_printer_defined and sf_printer_status knows the status of each printer.
pub mod Jobs
pub mod Cancel
pub mod Children
pub mod Expiry
pub mod Silence
pub mod Commands
pub mod Session
use posix_printer_spooler.Prelude.{
  ℕ, ◌<◌, ◌≡◌, ◌≢◌, ◌⊎◌, inl, inr, ◌∙◌, refl, sym, ap, true, false, Option, none, some, List, [],
  ◌∷◌, arith, ℕ_discrete, if◌then◌else◌, Bool-cases,
}
use posix_printer_spooler.Text.{Text, text_eq, text_eq→eq, text_eq_refl}
use posix_printer_spooler.Platform.{Platform}
use posix_printer_spooler.Spooler.{
  PrinterStatus, disabled, Effect, printer_defined, printer_status, Spooler, printer_name, deref,
}
use posix_printer_spooler.Printers.Registry.{IsRegistry}

-- The status of the printer of this name in the latest event about it.
unfoldable pub announced : Text → List Effect → Option PrinterStatus
unfolding text_eq
announced name [] = none
announced name (printer_defined other type ∷ trace) =
    if text_eq other name then some disabled else announced name trace
announced name (printer_status other status ∷ trace) =
    if text_eq other name then some status else announced name trace
announced name (_ ∷ trace) = announced name trace

module _ {P : Platform} where
  -- Each job of the table has a registered printer, or none.
  abbrev pub HasTargets : Spooler P → Type 0
  HasTargets s =
      (k p : ℕ)
      → k < s.job_count
      → (s.job_spool k).target_printer ≡ some p
      → p < s.number_of_registered_printers

  -- The events tell the status of each registered printer.
  pub record IsAnnounced (s : Spooler P) : Type 0 where
    pub registry : IsRegistry s
    pub targets : HasTargets s
    pub shown :
        (i : ℕ)
        → i < s.number_of_registered_printers
        → announced (printer_name i s) s.trace ≡ some (s.printer_registry i).status

  -- No printer changes, and no event is about one.
  pub record Silent (s r : Spooler P) : Type 0 where
    pub same_printers : r.number_of_registered_printers ≡ s.number_of_registered_printers
    pub same_registry : r.printer_registry ≡ s.printer_registry
    pub view : (name : Text) → announced name r.trace ≡ announced name s.trace

  -- Printer `p` takes the status `st`, and the one event about a printer says so.
  pub record Tells (p : ℕ) (st : PrinterStatus) (s r : Spooler P) : Type 0 where
    pub same_printers : r.number_of_registered_printers ≡ s.number_of_registered_printers
    pub printer : r.printer_registry p ≡ record (s.printer_registry p) { status = st }
    pub others : (q : ℕ) → q ≢ p → r.printer_registry q ≡ s.printer_registry q
    pub view :
        (name : Text)
        → announced name r.trace
          ≡ (if text_eq (printer_name p s) name then some st else announced name s.trace)

  pub Silent-IsAnnounced :
      (s r : Spooler P) → Silent s r → HasTargets r → IsAnnounced s → IsAnnounced r
  Silent-IsAnnounced s r d targets a = record {
    registry = record {
      bounded = rw d.same_printers a.registry.bounded;
      unique = rw (d.same_printers, d.same_registry) a.registry.unique;
    };
    targets = targets;
    shown =
        λ i h. d.view (printer_name i r) ∙ rw d.same_registry (a.shown i (rw d.same_printers at h));
  }

  Tells-name :
      (p : ℕ) (st : PrinterStatus) (s r : Spooler P)
      → Tells p st s r
      → (q : ℕ) → printer_name q r ≡ printer_name q s
  Tells-name p st s r d q = elim (ℕ_discrete q p) [
    | yes same ↦ rw same (ground (arith, d.printer))
    | no ne ↦ rw (d.others q ne) refl
  ]

  pub Tells-IsAnnounced :
      (p : ℕ) (st : PrinterStatus) (s r : Spooler P)
      → p < s.number_of_registered_printers
      → Tells p st s r
      → HasTargets r
      → IsAnnounced s
      → IsAnnounced r
  Tells-IsAnnounced p st s r below d targets a = record {
    registry = record {
      bounded = rw d.same_printers a.registry.bounded;
      unique = λ i j hi hj e.
          a.registry.unique i j (rw d.same_printers at hi) (rw d.same_printers at hj)
            (sym (Tells-name p st s r d i) ∙ e ∙ Tells-name p st s r d j);
    };
    targets = targets;
    shown = λ i h.
        d.view (printer_name i r)
        ∙ rw (Tells-name p st s r d i) (shown i (rw d.same_printers at h));
  }
    where
      shown :
          (i : ℕ)
          → i < s.number_of_registered_printers
          → (if text_eq (printer_name p s) (printer_name i s)
              then some st
              else announced (printer_name i s) s.trace)
            ≡ some (r.printer_registry i).status
      shown i h = elim (ℕ_discrete i p) [
        | yes same ↦ rw (same, text_eq_refl (printer_name p s), d.printer) refl
        | no ne ↦ elim (Bool-cases (text_eq (printer_name p s) (printer_name i s))) [
          | inl clash ↦ absurd (ne (sym (a.registry.unique p i below h (text_eq→eq _ _ clash))))
          | inr differ ↦ rw (differ, d.others i ne) (a.shown i h)
        ]
      ]
