-- ===== src/Main/Operands.antt =====
-- main with an operand: an argument that is neither an option nor the value of one.
use posix_printer_spooler.Prelude.{
  ℕ, zero, suc, ◌≡◌, ◌∙◌, refl, true, none, some, List, [], ◌∷◌, arith, Option-cases, inl, inr,
}
use posix_printer_spooler.Platform.{Platform}
use posix_printer_spooler.Spooler.{Spooler}
use posix_printer_spooler.Cli.{Input}
use posix_printer_spooler.Main.{
  Flag, Arguments, Settings, default_settings, apply_flag, parse_options, main,
}
use posix_printer_spooler.Main.Options.{apply_flags, parse_stays, parse_goes_on}

-- `getopt` gives these options, and then an operand is left: it returns -1 from then on, and `optind`
-- stays at the operand.
pub data StopsAtOperand (A : Arguments) : A.Args → List Flag → Type 0 where
  operand :
      (a a' : A.Args)
      → A.in_range a ≡ true
      → A.getopt a ≡ (none, a')
      → A.in_range a' ≡ true
      → A.getopt a' ≡ (none, a')
      → StopsAtOperand A a []
  option :
      (a a' : A.Args) (flag : Flag) (flags : List Flag)
      → A.in_range a ≡ true
      → A.getopt a ≡ (some flag, a')
      → StopsAtOperand A a' flags
      → StopsAtOperand A a (flag ∷ flags)

module _ (A : Arguments) where
  parse_out_of_fuel : (a : A.Args) (o : Settings) → parse_options A 0 a o ≡ none
  unfolding parse_options
  parse_out_of_fuel a o = refl

  parse_spins :
      (fuel : ℕ) (a : A.Args) (o : Settings)
      → A.in_range a ≡ true
      → A.getopt a ≡ (none, a)
      → parse_options A fuel a o ≡ none
  parse_spins zero a o in_range e = parse_out_of_fuel a o
  parse_spins (suc fuel) a o in_range e =
      parse_stays A fuel a a o in_range e ∙ parse_spins fuel a o in_range e

  pub parse_options-hangs :
      (fuel : ℕ) (a : A.Args) (flags : List Flag) (o o' : Settings)
      → StopsAtOperand A a flags
      → apply_flags A flags o ≡ some o'
      → parse_options A fuel a o ≡ none
  unfolding apply_flags
  parse_options-hangs zero a flags o o' y ok = parse_out_of_fuel a o
  parse_options-hangs (suc fuel) a [] o o' (operand _ a' in_range e stays again) ok =
      parse_stays A fuel a a' o in_range e ∙ parse_spins fuel a' o stays again
  parse_options-hangs (suc fuel) a (flag ∷ flags) o o' (option _ a' _ _ in_range e y) ok =
      elim (Option-cases (apply_flag A flag o)) [
        | inl bad ↦ ground (arith, rw (apply_flags, bad) at ok)
        | inr (o₁, good) ↦
            parse_goes_on A fuel a a' flag o o₁ in_range e good
            ∙ parse_options-hangs fuel a' flags o₁ o' y (rw (apply_flags, good) at ok)
      ]

  -- Given an operand, and options in front of it that are all good, `main` never returns, whatever the
  -- number of rounds: the loop over the options runs on with `optind` at the operand.
  pub main-hangs :
      {P : Platform} (fuel : ℕ) (a : A.Args) (flags : List Flag) (o : Settings)
      (inputs : List Input) (s : Spooler P)
      → StopsAtOperand A a flags
      → apply_flags A flags default_settings ≡ some o
      → main A fuel a inputs s ≡ none
  unfolding main
  main-hangs fuel a flags o inputs s y ok =
      rw (main, parse_options-hangs fuel a flags default_settings o y ok) refl
