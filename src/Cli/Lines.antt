-- ===== src/Cli/Lines.antt =====
-- Which lines reach the handlers, and with which tokens.
use posix_printer_spooler.Prelude.{
  ℕ, ◌≡◌, refl, ap, ◌∙◌, ◌⊎◌, inl, inr, Bool, true, false, List, [], ◌∷◌, arith, Bool-cases,
}
use posix_printer_spooler.Text.{Text}
use posix_printer_spooler.Platform.{Platform}
use posix_printer_spooler.Spooler.{Spooler}
use posix_printer_spooler.Tokens.{is_space, max_command_tokens, split_input_line_into_tokens}
use posix_printer_spooler.Tokens.Words.{words, take, attach, starts_word, split-words}
use posix_printer_spooler.Cli.{dispatch_tokens, process_line}

attach_cases :
    (c : ℕ) (joins : Bool) (ws : List Text)
    → (cmd : Text) × (rest : List Text) × (attach c joins ws ≡ cmd ∷ rest)
attach_cases c true (w ∷ ws) = (c ∷ w, ws, refl)
attach_cases c true [] = (c ∷ [], [], refl)
attach_cases c false ws = (c ∷ [], ws, refl)

-- A line that starts with a byte other than white space has a first word.
first_word :
    (c : ℕ) (line : Text)
    → is_space c ≡ false
    → (cmd : Text) × (rest : List Text) × (words (c ∷ line) ≡ cmd ∷ rest)
unfolding words
first_word c line letter =
    let (cmd, rest, e) = attach_cases c (starts_word line) (words line) in (cmd, rest, rw letter e)

module _ {P : Platform} where
  blank_ignored : (s : Spooler P) → process_line [] s ≡ (false, s)
  unfolding process_line
  blank_ignored s = refl

  indented_ignored :
      (c : ℕ) (line : Text) (s : Spooler P)
      → is_space c ≡ true
      → process_line (c ∷ line) s ≡ (false, s)
  unfolding process_line
  indented_ignored c line s space = ground (arith, space)

  letter_dispatched :
      (c : ℕ) (line : Text) (s : Spooler P)
      → is_space c ≡ false
      → process_line (c ∷ line) s ≡ dispatch_tokens (split_input_line_into_tokens (c ∷ line)) s
  unfolding process_line
  letter_dispatched c line s letter = rw (process_line, letter) refl

  -- For every line: if it starts with a byte other than white space, it has a first word, and it is
  -- dispatched with its first 32 words; else it does nothing, and the loop goes on. So the branch for a
  -- line without tokens is never taken.
  pub process_line-dispatches :
      (line : Text) (s : Spooler P)
      → ((starts_word line ≡ false) × (process_line line s ≡ (false, s)))
        ⊎ ((starts_word line ≡ true)
            × (cmd : Text) × (args : List Text) × (take max_command_tokens (words line)
                ≡ cmd ∷ args)
            × (process_line line s ≡ dispatch_tokens (cmd ∷ args) s))
  process_line-dispatches [] s = inl (refl, blank_ignored s)
  process_line-dispatches (c ∷ line) s = elim (Bool-cases (is_space c)) [
    | inl space ↦ inl (rw space refl, indented_ignored c line s space)
    | inr letter ↦
        let (cmd, rest, e) = first_word c line letter in
        let first = ap (take max_command_tokens) e in
        inr (
          rw letter refl,
          cmd,
          take 31 rest,
          first,
          letter_dispatched c line s letter
              ∙ ap (λ tokens. dispatch_tokens tokens s) (split-words (c ∷ line) ∙ first),
        )
  ]
