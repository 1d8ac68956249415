-- ===== src/Tokens.antt =====
-- src/cli.c: split_input_line_into_tokens, over the bytes of the line. The source cuts the line in
-- place by NUL bytes; a token is here the list of its bytes.
pub mod Words
pub mod Layout
use posix_printer_spooler.Prelude.{
  ℕ, zero, suc, Bool, ◌&&◌, ◌||◌, List, [], ◌∷◌, leb, ◌==◌, if◌then◌else◌,
}
use posix_printer_spooler.Text.{Text}

abbrev pub max_command_tokens : ℕ
max_command_tokens = 32

-- `isspace` in the C locale: the blank, and \t \n \v \f \r.
abbrev pub is_space : ℕ → Bool
is_space c = c == 32 || leb 9 c && leb c 13

-- `while (isspace(*line)) line++;`
unfoldable pub skip_spaces : Text → Text
skip_spaces [] = []
skip_spaces (c ∷ line) = if is_space c then skip_spaces line else c ∷ line

-- `while (*line && !isspace(*line)) line++;`: the token, and the line behind it.
unfoldable pub scan_token : Text → Text × Text
scan_token [] = ([], [])
scan_token (c ∷ line) =
    let (token, rest) = scan_token line in if is_space c then ([], c ∷ line) else (c ∷ token, rest)

-- `if (*line) *line++ = '\0';`
abbrev pub skip_byte : Text → Text
skip_byte [] = []
skip_byte (c ∷ line) = line

-- The outer loop with the slots that are left in `tokens`; each round shortens the line, so a fuel
-- above its length is enough.
unfoldable pub token_loop : ℕ → ℕ → Text → List Text
unfolding skip_spaces scan_token
token_loop zero slots line = []
token_loop (suc fuel) zero line = []
token_loop (suc fuel) (suc slots) line = elim (skip_spaces line) [
  | [] ↦ []
  | c ∷ rest ↦
      (scan_token (c ∷ rest)).0 ∷ token_loop fuel slots (skip_byte (scan_token (c ∷ rest)).1)
]

abbrev pub length {ℓ} : {A : Type ℓ} → List A → ℕ
length [] = 0
length (x ∷ xs) = suc (length xs)

unfoldable pub split_input_line_into_tokens : Text → List Text
unfolding token_loop
split_input_line_into_tokens line = token_loop (suc (length line)) max_command_tokens line
