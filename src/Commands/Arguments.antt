-- ===== src/Commands/Arguments.antt =====
-- src/command_handler.c: what the handlers share. `argv` is the list of the tokens and `argc` its length.
use posix_printer_spooler.Prelude.{ℕ, zero, suc, ◌-◌, String, List, [], ◌∷◌}
use posix_printer_spooler.Text.{Text}
use posix_printer_spooler.Platform.{Platform}
use posix_printer_spooler.Spooler.{
  Spooler, Line, wrong_number_of_args, cmd_error, printed, ◌▷◌, emit,
}
use posix_printer_spooler.Tokens.{length}

-- `argv[i]`; every handler reads it after it has tested `argc`.
abbrev pub arg : List Text → ℕ → Text
arg [] i = []
arg (x ∷ xs) zero = x
arg (x ∷ xs) (suc i) = arg xs i

-- The tokens from the third argument of `conversion` on.
abbrev pub args_from : ℕ → List Text → List Text
args_from zero xs = xs
args_from (suc n) [] = []
args_from (suc n) (x ∷ xs) = args_from n xs

module _ {P : Platform} where
  abbrev pub print : Line → Spooler P → Spooler P
  print line s = emit (printed line) s

  abbrev pub wrong_args : List Text → ℕ → String → String → Spooler P → Spooler P
  wrong_args argv required name message s =
      s ▷ print (wrong_number_of_args (length argv - 1) required name) ▷ emit (cmd_error message)
