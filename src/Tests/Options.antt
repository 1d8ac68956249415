-- ===== src/Tests/Options.antt =====
-- The options of `main`.
use posix_printer_spooler.Prelude.{
  ◌≡◌, ◌⊎◌, refl, Bool, true, false, Option, none, some, List, [], ◌∷◌, arith, if◌then◌else◌,
}
use posix_printer_spooler.Text.{text, text_eq}
use posix_printer_spooler.Cli.{run_main}
use posix_printer_spooler.Main.{Flag, input_file, suppress_chatter, Arguments, apply_flag, main}
use posix_printer_spooler.Main.Options.{AllApply, apply_flags, Yields, at_end, option, main-returns}
use posix_printer_spooler.Main.Operands.{StopsAtOperand, operand, main-hangs}
use posix_printer_spooler.Main.Operands
use posix_printer_spooler.Tests.States.{blank}

-- The options that are left, and whether an operand is behind them.
abbrev ToyArgs : Type 0
ToyArgs = List Flag × Bool

abbrev toy_in_range : ToyArgs → Bool
toy_in_range ([], operand_left) = operand_left
toy_in_range (flag ∷ flags, operand_left) = true

abbrev toy_getopt : ToyArgs → Option Flag × ToyArgs
toy_getopt ([], operand_left) = (none, ([], operand_left))
toy_getopt (flag ∷ flags, operand_left) = (some flag, (flags, operand_left))

-- One file can be read, and all can be written.
abbrev toy_arguments : Arguments
toy_arguments = record {
  Args = ToyArgs;
  in_range = toy_in_range;
  getopt = toy_getopt;
  open_input = λ path. if text_eq path (text "commands") then some (text "jobs") else none;
  open_output = λ path. true;
}

abbrev given : List Flag
given = suppress_chatter ∷ input_file (text "commands") ∷ []

given-Yields : Yields toy_arguments (given, false) given
given-Yields = option _ _ _ _ refl refl (option _ _ _ _ refl refl (at_end _ refl))

main-returns_example :
    (AllApply toy_arguments given
      × (main toy_arguments 5 (given, false) [] blank
          ≡ some (true, run_main (some (text "jobs")) [] blank)))
    ⊎ ((¬ AllApply toy_arguments given)
        × (main toy_arguments 5 (given, false) [] blank ≡ some (false, blank)))
unfolding text_eq
main-returns_example =
    main-returns toy_arguments 5 (given, false) given [] blank given-Yields (omega arith)

main-hangs_example : main toy_arguments 1000 (suppress_chatter ∷ [], true) [] blank ≡ none
unfolding apply_flags apply_flag
main-hangs_example =
    main-hangs toy_arguments 1000 (suppress_chatter ∷ [], true) (suppress_chatter ∷ []) _ [] blank
      (Operands.option _ _ _ _ refl refl (operand _ _ refl refl refl refl)) refl
