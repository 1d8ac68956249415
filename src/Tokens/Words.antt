-- ===== src/Tokens/Words.antt =====
-- split_input_line_into_tokens gives the first words of the line.
use posix_printer_spooler.Prelude.{
  ℕ, zero, suc, ◌≤◌, ◌<◌, ◌≡◌, refl, sym, ap, ◌⊎◌, inl, inr, Bool, true, false, List, [], ◌∷◌,
  arith, Bool-cases, if◌then◌else◌, not,
}
use posix_printer_spooler.Text.{Text}
use posix_printer_spooler.Tokens.{
  is_space, skip_spaces, scan_token, skip_byte, token_loop, length, split_input_line_into_tokens,
  max_command_tokens,
}

abbrev pub take {ℓ} : {A : Type ℓ} → ℕ → List A → List A
take zero xs = []
take (suc n) [] = []
take (suc n) (x ∷ xs) = x ∷ take n xs

abbrev pub starts_word : Text → Bool
starts_word [] = false
starts_word (c ∷ line) = not (is_space c)

-- A byte in front of the first word, or a word of its own.
abbrev pub attach : ℕ → Bool → List Text → List Text
attach c true (w ∷ ws) = (c ∷ w) ∷ ws
attach c true [] = (c ∷ []) ∷ []
attach c false ws = (c ∷ []) ∷ ws

-- The maximal runs of bytes other than white space, byte by byte.
unfoldable pub words : Text → List Text
words [] = []
words (c ∷ line) =
    let rest = words line in if is_space c then rest else attach c (starts_word line) rest

List-cases : {A : Type 0} (xs : List A) → (xs ≡ []) ⊎ ((x : A) × (rest : List A) × (xs ≡ x ∷ rest))
List-cases [] = inl refl
List-cases (x ∷ xs) = inr (x, xs, refl)

skip_spaces-words : (line : Text) → words (skip_spaces line) ≡ words line
unfolding words skip_spaces
skip_spaces-words [] = refl
skip_spaces-words (c ∷ line) = ground (arith, skip_spaces-words line)

skip_spaces-length : (line : Text) → length (skip_spaces line) ≤ length line
unfolding skip_spaces
skip_spaces-length [] = omega arith
skip_spaces-length (c ∷ line) = ground (arith, skip_spaces-length line)

skip_spaces-head : (line rest : Text) (c : ℕ) → skip_spaces line ≡ c ∷ rest → is_space c ≡ false
unfolding skip_spaces
skip_spaces-head [] rest c e = ground arith
skip_spaces-head (d ∷ line) rest c e = elim (Bool-cases (is_space d)) [
  | inl space ↦ skip_spaces-head line rest c (rw space at e)
  | inr letter ↦ ground (arith, letter, rw letter at e)
]

scan_space : (c : ℕ) (line : Text) → is_space c ≡ true → scan_token (c ∷ line) ≡ ([], c ∷ line)
unfolding scan_token
scan_space c line h = rw h refl

scan_byte :
    (c : ℕ) (line : Text)
    → is_space c ≡ false
    → scan_token (c ∷ line) ≡ (c ∷ (scan_token line).0, (scan_token line).1)
unfolding scan_token
scan_byte c line h = rw h refl

pub words_space : (c : ℕ) (line : Text) → is_space c ≡ true → words (c ∷ line) ≡ words line
unfolding words
words_space c line h = rw h refl

pub words_byte :
    (c : ℕ) (line : Text)
    → is_space c ≡ false
    → words (c ∷ line) ≡ attach c (starts_word line) (words line)
unfolding words
words_byte c line h = rw h refl

scan_nil : scan_token [] ≡ ([], [])
unfolding scan_token
scan_nil = refl

pub words_nil : words [] ≡ []
unfolding words
words_nil = refl

-- The token is the first word.
scan_token-words :
    (c : ℕ) (line : Text)
    → is_space c ≡ false
    → words (c ∷ line) ≡ (scan_token (c ∷ line)).0 ∷ words (skip_byte (scan_token (c ∷ line)).1)
scan_token-words c [] h = rw (words_byte c [] h, scan_byte c [] h, scan_nil, words_nil) refl
scan_token-words c (d ∷ line) h =
    rw (words_byte c (d ∷ line) h, scan_byte c (d ∷ line) h)
      (elim (Bool-cases (is_space d)) [
        | inl space ↦ rw (words_space d line space, scan_space d line space, space) refl
        | inr letter ↦ rw (scan_token-words d line letter, letter) refl
      ])

scan_token-length :
    (c : ℕ) (line : Text)
    → is_space c ≡ false
    → length (skip_byte (scan_token (c ∷ line)).1) ≤ length line
scan_token-length c [] h = rw (scan_byte c [] h, scan_nil) (omega arith)
scan_token-length c (d ∷ line) h = rw (scan_byte c (d ∷ line) h) (elim (Bool-cases (is_space d)) [
  | inl space ↦ rw (scan_space d line space) (omega arith)
  | inr letter ↦ omega (arith, scan_token-length d line letter)
])

loop_full : (fuel : ℕ) (line : Text) → token_loop (suc fuel) 0 line ≡ []
unfolding token_loop
loop_full fuel line = refl

loop_none :
    (fuel slots : ℕ) (line : Text)
    → skip_spaces line ≡ []
    → token_loop (suc fuel) (suc slots) line ≡ []
unfolding token_loop
loop_none fuel slots line h = rw (token_loop, h) refl

loop_word :
    (fuel slots : ℕ) (line rest : Text) (c : ℕ)
    → skip_spaces line ≡ c ∷ rest
    → token_loop (suc fuel) (suc slots) line
      ≡ (scan_token (c ∷ rest)).0 ∷ token_loop fuel slots (skip_byte (scan_token (c ∷ rest)).1)
unfolding token_loop
loop_word fuel slots line rest c h = rw (token_loop, h) refl

token_loop-words :
    (fuel slots : ℕ) (line : Text)
    → length line < fuel
    → token_loop fuel slots line ≡ take slots (words line)
token_loop-words zero slots line h = absurd (omega arith)
token_loop-words (suc fuel) zero line h = loop_full fuel line
token_loop-words (suc fuel) (suc slots) line h = elim (List-cases (skip_spaces line)) [
  | inl nothing ↦
      rw (loop_none fuel slots line nothing, sym (skip_spaces-words line), nothing, words_nil) refl
  | inr (c, rest, found) ↦
      let letter = skip_spaces-head line rest c found in
      rw
        (
          loop_word fuel slots line rest c found,
          sym (skip_spaces-words line),
          found,
          scan_token-words c rest letter,
        )
        (ap (λ ws. (scan_token (c ∷ rest)).0 ∷ ws)
          (token_loop-words fuel slots (skip_byte (scan_token (c ∷ rest)).1) (
            omega
              (arith, scan_token-length c rest letter, skip_spaces-length line, ap length found))))
]

-- For every line, the tokens are the first 32 of its words: no token is lost or cut, and the words
-- behind the 32nd are dropped.
pub split-words :
    (line : Text) → split_input_line_into_tokens line ≡ take max_command_tokens (words line)
unfolding split_input_line_into_tokens
split-words line = token_loop-words (suc (length line)) max_command_tokens line (omega arith)
