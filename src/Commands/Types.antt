-- ===== src/Commands/Types.antt =====
-- src/command_handler.c: the commands type and conversion. `calloc` is taken to succeed.
use posix_printer_spooler.Prelude.{not, none, some, List, ltb, ◌==◌, if◌then◌else◌}
use posix_printer_spooler.Text.{Text}
use posix_printer_spooler.Platform.{Platform}
use posix_printer_spooler.Spooler.{
  Spooler, command_error, undeclared_file_type, cmd_ok, cmd_error, ◌▷◌, emit,
}
use posix_printer_spooler.Tokens.{length}
use posix_printer_spooler.Commands.Arguments.{arg, args_from, print, wrong_args}

module _ {P : Platform} where
  unfoldable pub handle_type_command : List Text → Spooler P → Spooler P
  handle_type_command argv s =
      if not (length argv == 2)
      then wrong_args argv 1 "type" "Invalid number of arguments for 'type'." s
      else let (type, table) = P.define_type (arg argv 1) s.table in
        let s₁ = record s { table = table } in
        elim type [
          | none ↦
              s₁ ▷ print (command_error "type" "failed") ▷ emit (cmd_error "define_type() failed.")
          | some t ↦ emit cmd_ok s₁
        ]

  abbrev undeclared : Text → Spooler P → Spooler P
  undeclared name s =
      s
      ▷ print (undeclared_file_type name)
      ▷ emit (cmd_error "conversion")
      ▷ print (command_error "conversion" "failed")

  -- The part of `handle_conversion_command` behind the look-up of both types.
  abbrev pub store_conversion : List Text → Spooler P → Spooler P
  store_conversion argv s =
      let (conv, table) =
        P.define_conversion (arg argv 1) (arg argv 2) (args_from 3 argv) s.table in
      let s₁ = record s { table = table } in
      elim conv [
        | none ↦
            s₁
            ▷ print (command_error "conversion" "failed")
            ▷ emit (cmd_error "define_conversion() failed.")
        | some c ↦ emit cmd_ok s₁
      ]

  unfoldable pub handle_conversion_command : List Text → Spooler P → Spooler P
  handle_conversion_command argv s =
      if ltb (length argv) 4
      then wrong_args argv 3 "conversion" "Invalid number of arguments for 'conversion'." s
      else elim (P.find_type (arg argv 1) s.table) [
        | none ↦ undeclared (arg argv 1) s
        | some from ↦ elim (P.find_type (arg argv 2) s.table) [
          | none ↦ undeclared (arg argv 2) s
          | some to ↦ store_conversion argv s
        ]
      ]
