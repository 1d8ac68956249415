-- ===== src/Numbers.antt =====
-- `atoi`, which src/command_handler.c calls on a job id. Its result outside the range of `int` is
-- undefined in C; here it is the number that the text spells.
pub mod Decimal
use posix_printer_spooler.Prelude.{
  ℕ, zero, suc, ◌+◌, ◌-◌, ◌*◌, ℤ, pos, negsuc, Bool, ◌&&◌, [], ◌∷◌, leb, ◌==◌, if◌then◌else◌,
}
use posix_printer_spooler.Text.{Text}
use posix_printer_spooler.Tokens.{skip_spaces}

abbrev pub is_digit : ℕ → Bool
is_digit c = leb b'0' c && leb c b'9'

unfoldable pub digits_value : ℕ → Text → ℕ
digits_value acc [] = acc
digits_value acc (c ∷ s) = if is_digit c then digits_value (acc * 10 + (c - b'0')) s else acc

abbrev negate : ℕ → ℤ
negate zero = pos 0
negate (suc n) = negsuc n

unfoldable pub signed_value : Text → ℤ
unfolding digits_value
signed_value [] = pos 0
signed_value (c ∷ s) =
    if c == b'-'
    then negate (digits_value 0 s)
    else if c == b'+'
    then pos (digits_value 0 s)
    else pos (digits_value 0 (c ∷ s))

unfoldable pub atoi : Text → ℤ
unfolding skip_spaces signed_value
atoi s = signed_value (skip_spaces s)
